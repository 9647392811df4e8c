-- ===== src/Broker/Router/Names.antt =====
-- tesser-broker/src/router.rs: the texts of client identifiers, and the sorted list of markets.
use tesser.Prelude.{
  ℕ, zero, suc, Bool, true, false, ◌&&◌, Option, none, some, List, [], ◌∷◌, if◌then◌else◌, ltb, leb,
  ◌==◌, ◌-◌, map, is_some,
}
use tesser.Prelude.Bytes.{codes, same_text, split_once, strip_prefix}
use tesser.Core.Types.{Text}

abbrev pub client_namespace : Text
client_namespace = codes "TESSER"

-- `starts_with`
unfoldable pub is_router_namespace : Text → Bool
is_router_namespace value = is_some (strip_prefix client_namespace value)

-- the text up to a separator, or all of it if there is none
abbrev before : Text → Text → Text
before sep s = elim (split_once sep s) [ none ↦ s | some (first, _) ↦ first ]

-- `chars().take(n)` on UTF-8: a byte from 128 to 191 goes on with the character before it
abbrev take_chars : ℕ → Text → Text
take_chars n [] = []
take_chars n (b ∷ s) =
    if leb 128 b && ltb b 192
    then b ∷ take_chars n s
    else elim n [ zero ↦ [] | suc k ↦ b ∷ take_chars k s ]

abbrev to_ascii_uppercase : Text → Text
to_ascii_uppercase = map (λ b. if leb b'a' b && leb b b'z' then b - 32 else b)

abbrev or_default : Text → Text
or_default [] = codes "grp"
or_default (b ∷ s) = b ∷ s

unfoldable pub extract_group_suffix : Text → Option Text
extract_group_suffix value = elim (split_once (codes "|grp:") value) [
  | none ↦ none
  | some (_, after) ↦
      let segment = before (codes "|grp:") after in
      some (to_ascii_uppercase (or_default (take_chars 8 (before (codes "|") segment))))
]

-- the order of texts
abbrev text_le : Text → Text → Bool
text_le [] t = true
text_le (a ∷ s) [] = false
text_le (a ∷ s) (b ∷ t) = if a == b then text_le s t else ltb a b

abbrev insert_text : Text → List Text → List Text
insert_text t [] = t ∷ []
insert_text t (u ∷ us) = let rest = insert_text t us in if text_le t u then t ∷ u ∷ us else u ∷ rest

abbrev pub sort_texts : List Text → List Text
sort_texts [] = []
sort_texts (t ∷ ts) = insert_text t (sort_texts ts)

-- `Vec::dedup`, of neighbours that are equal
abbrev dedup_after : Text → List Text → List Text
dedup_after t [] = []
dedup_after t (u ∷ us) = if same_text t u then dedup_after t us else u ∷ dedup_after u us

abbrev pub dedup : List Text → List Text
dedup [] = []
dedup (t ∷ ts) = t ∷ dedup_after t ts

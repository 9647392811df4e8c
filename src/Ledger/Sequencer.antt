-- ===== src/Ledger/Sequencer.antt =====
-- tesser-ledger/src/sequencer.rs. The counter is an atomic `u64`, which wraps around; the sum after it
-- is taken in the range of a `u64` too. `latest_sequence` is the answer of the repository.
use tesser.Prelude.{
  ℕ, zero, suc, ◌+◌, ◌%◌, ◌^◌, ◌<◌, ◌≡◌, refl, Option, List, [], ◌∷◌, arith, unwrap_or, ap,
}
use tesser.Prelude.Result.{Result, ok, err}

pub record LedgerSequencer : Type 0 where
  pub counter : ℕ

abbrev pub new : ℕ → LedgerSequencer
new last_sequence = record { counter = last_sequence }

unfoldable pub bootstrap : {E : Type 0} → Result E (Option ℕ) → Result E LedgerSequencer
bootstrap (err e) = err e
bootstrap (ok latest) = ok (new (unwrap_or latest 0))

unfoldable pub next : LedgerSequencer → LedgerSequencer × ℕ
next s = (record { counter = (s.counter + 1) % 2 ^ 64 }, (s.counter + 1) % 2 ^ 64)

-- the sequences of so many calls
abbrev pub take_sequences : ℕ → LedgerSequencer → LedgerSequencer × List ℕ
take_sequences zero s = (s, [])
take_sequences (suc n) s =
    let (s', sequence) = next s in let (s'', rest) = take_sequences n s' in (s'', sequence ∷ rest)

-- the numbers from `a` on
abbrev pub numbers_from : ℕ → ℕ → List ℕ
numbers_from a zero = []
numbers_from a (suc n) = a ∷ numbers_from (suc a) n

take_sequences-new :
    (n last : ℕ) → last + n < 2 ^ 64 → (take_sequences n (new last)).1 ≡ numbers_from (suc last) n
unfolding next
take_sequences-new zero last h = refl
take_sequences-new (suc n) last h =
    let value : (last + 1) % 2 ^ 64 ≡ suc last = omega arith in
    rw value (ap (λ r. suc last ∷ r) (take_sequences-new n (suc last) (omega arith)))

-- A sequencer that starts after the last persisted sequence hands out the numbers that follow it, one
-- by one, as long as they stay below 2 to the 64th.
pub bootstrap_continues :
    {E : Type 0} (latest : Option ℕ) (n : ℕ)
    → unwrap_or latest 0 + n < 2 ^ 64
    → (s : LedgerSequencer) × (bootstrap {E = E} (ok latest) ≡ ok s)
      × ((take_sequences n s).1 ≡ numbers_from (suc (unwrap_or latest 0)) n)
unfolding bootstrap
bootstrap_continues latest n h =
    (new (unwrap_or latest 0), refl, take_sequences-new n (unwrap_or latest 0) h)

-- ===== src/Runtime/Maintenance/Drain.antt =====
-- `drain` over any method that keeps the contract of a bounded cleanup, and over the methods of the
-- in-memory adapter.
use fastauth.Prelude.{
  ℕ, zero, suc, ◌+◌, ◌*◌, ◌≤◌, ◌<◌, ◌≡◌, refl, false, inl, inr, arith, ltb, Bool-cases, ltb→lt,
}
use fastauth.Domain.Errors.{Result}
use fastauth.Memory.{Memory}
use fastauth.Runtime.Maintenance.{returning, drain_from}

-- What a cleanup method promises at a cutoff: an invariant, a count within the limit, and a state
-- that is clean once a batch was below its limit.
pub record CleanupContract (method : ℕ → ℕ → Memory → ℕ × Memory) (cutoff : ℕ) : Type 1 where
  pub Inv : Memory → Type 0
  pub Clean : Memory → Type 0
  pub keeps : (limit : ℕ) (m : Memory) → Inv m → Inv (method cutoff limit m).1
  pub bounded : (limit : ℕ) (m : Memory) → Inv m → (method cutoff limit m).0 ≤ limit
  pub cleans :
      (limit : ℕ) (m : Memory)
      → Inv m
      → (method cutoff limit m).0 < limit
      → Clean (method cutoff limit m).1

not_more : (a b : ℕ) → b ≤ a → ltb a b ≡ false
not_more a b h = ground arith

module _ {method : ℕ → ℕ → Memory → ℕ × Memory} {cutoff : ℕ} (c : CleanupContract method cutoff)
    (batch_size : ℕ) where
  abbrev pub Drained : ℕ → Result ℕ × Memory → Type 0
  Drained budget (r, m) =
      (n : ℕ) × (r ≡ Result.ok n) × (n ≤ budget) × c.Inv m × (n < budget → c.Clean m)

  pub drain_from_lem :
      (rounds total : ℕ) (m : Memory)
      → c.Inv m
      → Drained
          (total + rounds * batch_size)
          (drain_from (returning method) batch_size cutoff rounds total m)
  unfolding drain_from
  drain_from_lem zero total m h = (total, refl, omega arith, h, λ lt. absurd (omega arith))
  drain_from_lem (suc rounds) total m h =
      let deleted = (method cutoff batch_size m).0 in
      let m' = (method cutoff batch_size m).1 in
      let h' = c.keeps batch_size m h in
      let le = c.bounded batch_size m h in
      elim (Bool-cases (ltb deleted batch_size)) [
        | inl short ↦
            rw (not_more batch_size deleted le, short)
              (
                total + deleted,
                refl,
                omega arith,
                h',
                λ _. c.cleans batch_size m h (ltb→lt _ _ short),
              )
        | inr full ↦
            let (n, e, bound, inv, clean) = drain_from_lem rounds (total + deleted) m' h' in
            rw (not_more batch_size deleted le, full)
              (n, e, omega arith, inv, λ lt. clean (ground arith))
      ]

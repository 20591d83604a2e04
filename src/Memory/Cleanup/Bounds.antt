-- ===== src/Memory/Cleanup/Bounds.antt =====
-- Which rows one batch of the cleanup deletes, and how many.
use fastauth.Prelude.{
  ℕ, ◌≤◌, ◌<◌, String, ◌≡◌, Bool, true, false, inl, inr, some, List, map, arith, ◌==◌, any,
  contains, keep, length, take, sort_by, stamp_le, Bool-cases, sym, ap, subst, ◌∙◌,
}
use fastauth.Dict.{Dict, get, values}
use fastauth.Dict.Laws.{get-remove_all}
use fastauth.Dict.Fields.{contains-fields, fields-named}
use fastauth.Dict.Tables.{IsTable, distinct, keyed}
use fastauth.Memory.Cleanup.{doomed_rows, delete_due}
use fastauth.Memory.Cleanup.Rows.{any-sort_by, any-take, length-take_le, take_short, contains-map}

module _ {V : Type 0} (id_of : V → String) (stamp : V → ℕ) (is_due : V → Bool) (limit : ℕ)
    (d : Dict V) (t : IsTable id_of d) where
  due_rows : List V
  due_rows = keep is_due (values d)

  -- An id in the batch is the id of a due row.
  doomed-due :
      (k : String)
      → contains k (map id_of (doomed_rows id_of stamp is_due limit (values d))) ≡ true
      → (v : V) × (get d k ≡ some v) × (is_due v ≡ true)
  unfolding doomed_rows
  doomed-due k h =
      let le : V → V → Bool = λ a b. stamp_le (stamp a) (id_of a) (stamp b) (id_of b) in
      let p : V → Bool = λ v. id_of v == k in
      let rows = keep is_due (values d) in
      let in_rows = any-take p limit (sort_by le rows) (rw contains-map at h) in
      let (j, v, g, q, e) =
        fields-named is_due id_of d k (distinct t)
          (contains-map id_of k rows ∙ sym (any-sort_by p le rows) ∙ in_rows) in
      (v, subst (λ i. get d i ≡ some v) (sym (keyed t j v g) ∙ e) g, q)

  -- If the batch is below its limit, every due row is in it.
  due-doomed :
      (k : String) (v : V)
      → get d k ≡ some v
      → is_due v ≡ true
      → length (doomed_rows id_of stamp is_due limit (values d)) < limit
      → contains k (map id_of (doomed_rows id_of stamp is_due limit (values d))) ≡ true
  unfolding doomed_rows
  due-doomed k v g q short =
      let le : V → V → Bool = λ a b. stamp_le (stamp a) (id_of a) (stamp b) (id_of b) in
      let rows = keep is_due (values d) in
      let p : V → Bool = λ u. id_of u == k in
      contains-map id_of k (take limit (sort_by le rows))
      ∙ ap (any p) (take_short limit (sort_by le rows) short)
      ∙ any-sort_by p le rows
      ∙ sym (contains-map id_of k rows)
      ∙ subst (λ i. contains i (map id_of rows) ≡ true) (keyed t k v g)
          (contains-fields is_due id_of d k v g q)

  pub delete_due-le : (delete_due id_of stamp is_due limit d).0 ≤ limit
  unfolding delete_due
  delete_due-le = length-take_le limit _

  pub delete_due-keeps :
      (k : String) (v : V)
      → get d k ≡ some v
      → is_due v ≡ false
      → get (delete_due id_of stamp is_due limit d).1 k ≡ some v
  unfolding delete_due
  delete_due-keeps k v g fresh =
      let ids = map id_of (doomed_rows id_of stamp is_due limit (values d)) in
      elim (Bool-cases (contains k ids)) [
        | inl doomed ↦ let (u, there, due) = doomed-due k doomed in absurd (ground arith)
        | inr spared ↦ ground (arith, get-remove_all ids d k)
      ]

  pub delete_due-only :
      (k : String) (v : V)
      → get (delete_due id_of stamp is_due limit d).1 k ≡ some v
      → get d k ≡ some v
  unfolding delete_due
  delete_due-only k v g =
      let ids = map id_of (doomed_rows id_of stamp is_due limit (values d)) in
      ground (arith, get-remove_all ids d k)

  pub delete_due_complete :
      (k : String) (v : V)
      → (delete_due id_of stamp is_due limit d).0 < limit
      → get (delete_due id_of stamp is_due limit d).1 k ≡ some v
      → is_due v ≡ false
  unfolding delete_due
  delete_due_complete k v short g =
      let ids = map id_of (doomed_rows id_of stamp is_due limit (values d)) in
      elim (Bool-cases (is_due v)) [
        | inr fresh ↦ fresh
        | inl due ↦
            let there : get d k ≡ some v = ground (arith, get-remove_all ids d k) in
            absurd (ground (arith, get-remove_all ids d k, due-doomed k v there due short))
      ]

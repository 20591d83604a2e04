-- ===== src/Dict/Tables.antt =====
-- A table: distinct keys, and each row under its own id.
use fastauth.Prelude.{String, ◌≡◌, some, List, [], arith, eq_iff}
use fastauth.Dict.Defs.{Dict, get, put, remove, remove_all, Distinct}
use fastauth.Dict.Laws.{
  get-put, get-remove, get-remove_all, put-Distinct, remove-Distinct, remove_all-Distinct,
}

pub data IsTable {ℓ} {V : Type ℓ} (id_of : V → String) (d : Dict V) : Type ℓ where
  table : Distinct d → ((k : String) (v : V) → get d k ≡ some v → id_of v ≡ k) → IsTable id_of d

module _ {ℓ} {V : Type ℓ} {id_of : V → String} {d : Dict V} where
  pub distinct : IsTable id_of d → Distinct d
  distinct (table u keyed) = u

  pub keyed : IsTable id_of d → (k : String) (v : V) → get d k ≡ some v → id_of v ≡ k
  keyed (table u own) = own

module _ {ℓ} {V : Type ℓ} (id_of : V → String) where
  pub IsTable-nil : IsTable id_of []
  unfolding get
  IsTable-nil = table tt (λ k v h. ground arith)

  pub put-IsTable : (d : Dict V) (v : V) → IsTable id_of d → IsTable id_of (put d (id_of v) v)
  put-IsTable d v t =
      table (put-Distinct d (id_of v) v (distinct t))
        (λ k w h. ground (arith, get-put d (id_of v) k v, eq_iff (id_of v) k, keyed t k w))

  -- A row that is changed where it stands, and keeps its id.
  pub put_at-IsTable :
      (d : Dict V) (k : String) (v : V) → id_of v ≡ k → IsTable id_of d → IsTable id_of (put d k v)
  put_at-IsTable d k v e t = rw (← e) (put-IsTable d v t)

  pub remove-IsTable : (d : Dict V) (k : String) → IsTable id_of d → IsTable id_of (remove d k)
  remove-IsTable d k t =
      table (remove-Distinct d k (distinct t))
        (λ j w h. ground (arith, get-remove d k j, keyed t j w))

  pub remove_all-IsTable :
      (ks : List String) (d : Dict V) → IsTable id_of d → IsTable id_of (remove_all ks d)
  remove_all-IsTable ks d t =
      table (remove_all-Distinct ks d (distinct t))
        (λ j w h. ground (arith, get-remove_all ks d j, keyed t j w))

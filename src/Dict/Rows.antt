-- ===== src/Dict/Rows.antt =====
-- A row that a search finds stands under its own id.
use fastauth.Prelude.{String, Bool, Option, none, some, ◌≡◌, refl, sym, subst, arith}
use fastauth.Dict.Defs.{Dict, get, find, row_of}
use fastauth.Dict.Find.{get-find}
use fastauth.Dict.Tables.{IsTable, distinct, keyed}

module _ {ℓ} {V : Type ℓ} (id_of : V → String) (p : V → Bool) (d : Dict V) where
  found-row :
      (found : Option (String × V)) (v : V)
      → IsTable id_of d
      → find p d ≡ found
      → row_of found ≡ some v
      → get d (id_of v) ≡ some v
  found-row none v t e named = ground arith
  found-row (some (k, row)) v t e named =
      let got = get-find p d k row (distinct t) e in
      let same : row ≡ v = cc in
      subst (λ r. get d (id_of r) ≡ some r) same
        (subst (λ i. get d i ≡ some row) (sym (keyed t k row got)) got)

  pub get-found : (v : V) → IsTable id_of d → row_of (find p d) ≡ some v → get d (id_of v) ≡ some v
  get-found v t named = found-row (find p d) v t refl named

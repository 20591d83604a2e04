-- ===== src/Plugins/ApiKey/Admission.antt =====
-- When a stored API key admits a request, said without the code's own tests.
use fastauth.Prelude.{
  ℕ, ◌+◌, ◌*◌, ◌≤◌, String, ◌≡◌, refl, ap, subst, Bool, true, false, not, Option, none, some, List,
  [], ◌∷◌, ◌==◌, inl, inr, Bool-cases, arith, leb, any, contains, eq_iff, if◌then◌else◌,
}
use fastauth.Dict.{Dict, get}
use fastauth.Domain.Models.{ApiKey}
use fastauth.Plugins.ApiKey.{is_past, held_by, lacks, lacks_wanted, refill_due, refill_from, refill}
use mathlib.Core.List.{Memᴰ}
use mathlib.Core.List.Memᴰ

-- Every action that is asked for on a resource is among those that the key holds there.
abbrev pub Grants : Dict (List String) → Option (Dict (List String)) → Type 0
Grants granted wanted =
    (asked : Dict (List String)) (resource : String) (actions : List String) (action : String)
    → wanted ≡ some asked
    → Memᴰ (resource, actions) asked
    → Memᴰ action actions
    → (held : List String) × (get granted resource ≡ some held) × Memᴰ action held

-- The key has an amount to refill, an interval and a last refill, and the interval is over.
abbrev pub is_due : ℕ → Option ℕ → Option ℕ → Option ℕ → Bool
is_due now none interval_ms last = false
is_due now (some amount) none last = false
is_due now (some amount) (some interval_ms) none = false
is_due now (some amount) (some interval_ms) (some last) = leb (last + interval_ms * 1000) now

-- The quota that a request meets: the amount to refill where that is due, and what is left elsewhere.
abbrev pub quota_at : ℕ → ApiKey → Option ℕ
quota_at now key =
    if is_due now key.refill_amount key.refill_interval_ms key.last_refill_at
    then key.refill_amount
    else key.remaining

pub is_past-ends :
    (now : ℕ) (expires_at : Option ℕ) (ends : ℕ)
    → is_past expires_at now ≡ false
    → expires_at ≡ some ends
    → now ≤ ends
unfolding is_past
is_past-ends now none ends current e = ground arith
is_past-ends now (some at) ends current e = ground arith

member-any :
    {A : Type 0} (p : A → Bool) (x : A) (xs : List A) → any p xs ≡ false → Memᴰ x xs → p x ≡ false
member-any p x [] no_one m = absurd (Memᴰ.not-nil m)
member-any p x (y ∷ ys) no_one (Memᴰ.head e) = rw e (ground arith)
member-any p x (y ∷ ys) no_one (Memᴰ.tail m) = member-any p x ys (ground arith) m

contains-member : (k : String) (ks : List String) → contains k ks ≡ true → Memᴰ k ks
contains-member k [] h = ground arith
contains-member k (j ∷ ks) h = elim (Bool-cases (j == k)) [
  | inl same ↦ Memᴰ.head (ground (arith, eq_iff j k))
  | inr other ↦ Memᴰ.tail (contains-member k ks (ground arith))
]

held-member :
    (found : Option (List String)) (action : String)
    → not (contains action (held_by found)) ≡ false
    → (held : List String) × (found ≡ some held) × Memᴰ action held
held-member none action h = ground arith
held-member (some held) action h = (held, refl, contains-member action held (ground arith))

lacks-held :
    (granted asked : Dict (List String)) (resource : String) (actions : List String)
    (action : String)
    → lacks granted asked ≡ false
    → Memᴰ (resource, actions) asked
    → Memᴰ action actions
    → not (contains action (held_by (get granted resource))) ≡ false
unfolding lacks
lacks-held granted [] resource actions action h m n = absurd (Memᴰ.not-nil m)
lacks-held granted ((r, listed) ∷ asked) resource actions action h (Memᴰ.head e) n =
    rw (ap (λ (q : String × List String). q.0) e) (
      member-any (λ a. not (contains a (held_by (get granted r)))) action listed (ground arith)
        (subst (λ l. Memᴰ action l) (ap (λ (q : String × List String). q.1) e) n))
lacks-held granted ((r, listed) ∷ asked) resource actions action h (Memᴰ.tail m) n =
    lacks-held granted asked resource actions action (ground arith) m n

pub lacks_wanted-Grants :
    (granted : Dict (List String)) (wanted : Option (Dict (List String)))
    → lacks_wanted granted wanted ≡ false
    → Grants granted wanted
unfolding lacks_wanted
lacks_wanted-Grants granted none h asked resource actions action e m n = ground arith
lacks_wanted-Grants granted (some wanted) h asked resource actions action e m n =
    held-member (get granted resource) action
      (lacks-held granted asked resource actions action (ground arith) m n)

refill_from-quota :
    (now : ℕ) (key : ApiKey) (amount interval_ms last : Option ℕ)
    → (refill_from now key amount interval_ms last).remaining
      ≡ (if is_due now amount interval_ms last then amount else key.remaining)
unfolding refill_from refill_due
refill_from-quota now key none interval_ms last = refl
refill_from-quota now key (some amount) none last = refl
refill_from-quota now key (some amount) (some interval_ms) none = refl
refill_from-quota now key (some amount) (some interval_ms) (some last) = ground arith

pub refill-quota : (now : ℕ) (key : ApiKey) → (refill now key).remaining ≡ quota_at now key
unfolding refill
refill-quota now key =
    refill_from-quota now key key.refill_amount key.refill_interval_ms key.last_refill_at

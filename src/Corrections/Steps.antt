-- ===== src/Corrections/Steps.antt =====
-- One step of the diff of app/services/corrections.py, at its field and at the others.
use structured_data_extracto.Base.{
  String, true, false, ◌||◌, ◌==◌, Option, none, some, is_some, ◌≡◌, ◌⊎◌, refl, arith, Dict, get,
  put, get-put, eq_iff, if◌then◌else◌, Bool-cases, inl, inr,
}
use structured_data_extracto.Value.{Value}
use structured_data_extracto.Corrections.Equality.{eq_value}
use structured_data_extracto.Corrections.{Change, Diff, compare_field}

-- What the diff holds of one field.
abbrev pub added_value : Option Value → Option Value → Option Value
added_value none (some w) = some w
added_value _ _ = none

abbrev pub removed_value : Option Value → Option Value → Option Value
removed_value (some v) none = some v
removed_value _ _ = none

abbrev pub changed_value : Option Value → Option Value → Option Change
changed_value (some v) (some w) =
    if eq_value v w then none else some (record { from_value = v; to_value = w })
changed_value _ _ = none

pub record Holds (d : Diff) (k : String) (o c : Option Value) : Type 0 where
  pub at_added : get d.added k ≡ added_value o c
  pub at_removed : get d.removed k ≡ removed_value o c
  pub at_changed : get d.changed k ≡ changed_value o c

-- Each part holds nothing of a field yet, or what it is to hold.
abbrev pub Near {ℓ} : {A : Type ℓ} → Option A → Option A → Type ℓ
Near found expected = (found ≡ none) ⊎ (found ≡ expected)

pub record Begun (d : Diff) (k : String) (o c : Option Value) : Type 0 where
  pub near_added : Near (get d.added k) (added_value o c)
  pub near_removed : Near (get d.removed k) (removed_value o c)
  pub near_changed : Near (get d.changed k) (changed_value o c)

pub Begun-of-Holds : (d : Diff) (k : String) (o c : Option Value) → Holds d k o c → Begun d k o c
Begun-of-Holds d k o c h = record {
  near_added = inr h.at_added;
  near_removed = inr h.at_removed;
  near_changed = inr h.at_changed;
}

get-put_self : {V : Type 0} (d : Dict V) (k : String) (v : V) → get (put d k v) k ≡ some v
get-put_self d k v = ground (arith, get-put d k v k, eq_iff k k)

absent : {V : Type 0} (found : Option V) → Near found none → found ≡ none
absent found (inl e) = e
absent found (inr e) = e

compared_changed :
    (k : String) (v w : Value) (d : Diff)
    → Begun d k (some v) (some w)
    → Holds (compare_field k (some v) (some w) d) k (some v) (some w)
unfolding compare_field
compared_changed k v w d h = elim (Bool-cases (eq_value v w)) [
  | inl e ↦ record {
    at_added = rw e (absent _ h.near_added);
    at_removed = rw e (absent _ h.near_removed);
    at_changed = ground (arith, h.near_changed);
  }
  | inr e ↦ record {
    at_added = rw e (absent _ h.near_added);
    at_removed = rw e (absent _ h.near_removed);
    at_changed = rw e (get-put_self d.changed k _);
  }
]

-- The step at a field, from a diff that holds nothing of it or has held it before.
pub compared-Holds :
    (k : String) (o c : Option Value) (d : Diff)
    → (is_some o || is_some c) ≡ true
    → Begun d k o c
    → Holds (compare_field k o c d) k o c
unfolding compare_field
compared-Holds k none none d there h = ground arith
compared-Holds k none (some w) d there h = record {
  at_added = get-put_self d.added k w;
  at_removed = absent _ h.near_removed;
  at_changed = absent _ h.near_changed;
}
compared-Holds k (some v) none d there h = record {
  at_added = absent _ h.near_added;
  at_removed = get-put_self d.removed k v;
  at_changed = absent _ h.near_changed;
}
compared-Holds k (some v) (some w) d there h = compared_changed k v w d h

get-put_other :
    {V : Type 0} (d : Dict V) (j k : String) (v : V)
    → (j == k) ≡ false
    → get (put d j v) k ≡ get d k
get-put_other d j k v e = ground (arith, get-put d j v k)

-- The step at another field.
pub record Alike (d d' : Diff) (k : String) : Type 0 where
  pub same_added : get d'.added k ≡ get d.added k
  pub same_removed : get d'.removed k ≡ get d.removed k
  pub same_changed : get d'.changed k ≡ get d.changed k

pub compared-Alike :
    (j k : String) (o c : Option Value) (d : Diff)
    → (j == k) ≡ false
    → Alike d (compare_field j o c d) k
unfolding compare_field
compared-Alike j k none c d e = record {
  same_added = get-put_other d.added j k _ e;
  same_removed = refl;
  same_changed = refl;
}
compared-Alike j k (some v) none d e = record {
  same_added = refl;
  same_removed = get-put_other d.removed j k v e;
  same_changed = refl;
}
compared-Alike j k (some v) (some w) d e = elim (Bool-cases (eq_value v w)) [
  | inl s ↦ rw s (record { same_added = refl; same_removed = refl; same_changed = refl })
  | inr s ↦ rw s (record {
    same_added = refl;
    same_removed = refl;
    same_changed = get-put_other d.changed j k _ e;
  })
]

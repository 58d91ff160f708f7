-- ===== src/LiteLlm/Schema/Settles.antt =====
-- Computations that call themselves a bounded number of times, and what they constant-Settles to, for
-- `_dereference_and_simplify_schema` of app/integrations/llm/litellm_client.py.
use structured_data_extracto.Base.{ℕ, String, ◌≡◌, refl, ap, ◌≤◌, ◌∙◌}
use structured_data_extracto.Exec.{Result, ok}
use structured_data_extracto.Value.{
  Value, null, bool, int, float, str, list, dict, Fields, to_fields,
}
use structured_data_extracto.LiteLlm.Schema.{with_resolved, without, then_value, update}

abbrev pub IsDict : Value → Type 0
IsDict (dict _) = Unit
IsDict _ = ⊥

-- With `n` nested references or more, a computation returns one and the same value, which has a
-- property.
abbrev pub Settles {ℓ} : {A : Type ℓ} → (A → Type 0) → ℕ → (ℕ → Result A) → Type ℓ
Settles {A = A} P n r = (a : A) × P a × ((fuel : ℕ) → n ≤ fuel → r fuel ≡ ok a)

pub constant-Settles {ℓ} : {A : Type ℓ} (n : ℕ) (a : A) → Settles (λ _. Unit) n (λ _. ok a)
constant-Settles n a = (a, tt, λ fuel h. refl)

pub settle-map {ℓ κ} :
    {A : Type ℓ} {B : Type κ} {P : A → Type 0} {Q : B → Type 0} (n : ℕ) (r : ℕ → Result A)
    (g : Result A → Result B) (h : A → B)
    → ((a : A) → P a → g (ok a) ≡ ok (h a))
    → ((a : A) → P a → Q (h a))
    → Settles P n r
    → Settles Q n (λ fuel. g (r fuel))
settle-map n r g h same holds s =
    (h s.0, holds s.0 s.1, λ fuel le. ap g (s.2 fuel le) ∙ same s.0 s.1)

pub settle-map2 {ℓ κ μ} :
    {A : Type ℓ} {B : Type κ} {C : Type μ} {P : A → Type 0} {Q : B → Type 0} (n : ℕ)
    (r : ℕ → Result A) (t : ℕ → Result B) (g : Result A → Result B → Result C) (h : A → B → C)
    → ((a : A) (b : B) → g (ok a) (ok b) ≡ ok (h a b))
    → Settles P n r
    → Settles Q n t
    → Settles (λ _. Unit) n (λ fuel. g (r fuel) (t fuel))
settle-map2 n r t g h same s u = (
  h s.0 u.0,
  tt,
  λ fuel le. ap (λ x. g x (t fuel)) (s.2 fuel le) ∙ ap (g (ok s.0)) (u.2 fuel le) ∙ same s.0 u.0,
)

pub forget {ℓ} :
    {A : Type ℓ} {P : A → Type 0} (n : ℕ) (r : ℕ → Result A)
    → Settles P n r
    → Settles (λ _. Unit) n r
forget n r s = (s.0, tt, s.2)

pub always {ℓ} :
    {A : Type ℓ} {P : A → Type 0} (Q : Type 0) (n : ℕ) (r : ℕ → Result A)
    → Settles P n r
    → Settles (λ a. Q → P a) n r
always Q n r s = (s.0, (λ _. s.1), s.2)

abbrev pub merge : Fields → Value → Value
merge node (dict resolved) = dict (to_fields (update (without "$ref" node) resolved))
merge node v = v

pub with_resolved-merge :
    (node : Fields) (v : Value) → IsDict v → with_resolved node v ≡ ok (merge node v)
with_resolved-merge node (dict _) h = refl
with_resolved-merge node null h = elim h [ ]
with_resolved-merge node (bool _) h = elim h [ ]
with_resolved-merge node (int _) h = elim h [ ]
with_resolved-merge node (float _ _) h = elim h [ ]
with_resolved-merge node (str _) h = elim h [ ]
with_resolved-merge node (list _) h = elim h [ ]

pub merge-IsDict : (node : Fields) (v : Value) → IsDict v → IsDict (merge node v)
merge-IsDict node (dict _) h = tt
merge-IsDict node null h = h
merge-IsDict node (bool _) h = h
merge-IsDict node (int _) h = h
merge-IsDict node (float _ _) h = h
merge-IsDict node (str _) h = h
merge-IsDict node (list _) h = h

pub plain_entry :
    (n : ℕ) (k : String) (r : ℕ → Result Value)
    → Settles (λ _. Unit) n r
    → Settles {A = String × Value} (λ _. Unit) n (λ fuel. then_value (r fuel) (λ w. ok (k, w)))
plain_entry n k r s =
    settle-map n r (λ x. then_value x (λ w. ok (k, w))) (λ w. (k, w)) (λ a u. refl) (λ a u. tt) s

-- ===== src/Generator/Scope.antt =====
-- The code that is generated is in scope and of the right shape: what Reset assigns is declared, and
-- what the parser calls is declared too.
use openrom.Base.{
  ℕ, ◌≡◌, refl, sym, ap, subst, ◌⊎◌, inl, inr, arith, List, [], ◌∷◌, ◌++◌, true, Option, none, some,
  All, All-append, Option-cases,
}
use openrom.Decode.{ℤ, pos, negsuc}
use openrom.Definition.{
  TypeDef, scalar, struct, number, string, float, double, length_field, unixtime, Numbered,
}
use openrom.Generator.{
  Line, print, text, code, suffix, c_type, counted, more_than_one, is_one, c_initialize,
  c_initialize_all, c_initialize_number, CType, initializer, generate_initializers, generate_fields,
  both,
}
use mathlib.Core.Option.{some-injective}
use Prim.Native.String.{String}

abbrev pub Among : {A : Type 0} → A → List A → Type 0
Among x [] = ⊥
Among x (y ∷ ys) = (x ≡ y) ⊎ Among x ys

-- A line of Reset that gives a member its initial value, when the class declares the member with the
-- same name, and not as an array.
pub record AssignsMember (unset : ℤ) (prefix : String) (fs : List (String × TypeDef)) (l : Line)
    : Type 0 where
  pub name : String
  pub type_name : String
  pub value : List (String × ℕ)
  pub assigns : l ≡ print "\tm_Packet.%s%s = %s;\n" (text prefix ∷ (text name ∷ (code value ∷ [])))
  pub one_value : (c : String × ℕ) × (value ≡ c ∷ [])
  pub declared :
      Among
        (print "\t\t%s %s%s%s;\n" (text type_name ∷ (text prefix ∷ (text name ∷ (text "" ∷ [])))))
        (generate_fields unset prefix fs)

-- A struct has no fixed values in it.
abbrev pub IsPlain : TypeDef → Type 0
IsPlain (scalar name s) = Unit
IsPlain (struct name actions) = c_initialize_all actions ≡ some []

abbrev pub PlainField : String × TypeDef → Type 0
PlainField f = IsPlain f.1

-- A number with a fixed value is single.
one_unbounded :
    (n : String) (count : ℤ)
    → is_one count ≡ true
    → counted n count ≡ record { name = n; bound = none }
unfolding counted more_than_one is_one
one_unbounded n (pos m) h = ground arith
one_unbounded n (negsuc m) h = cc

single :
    (x : Numbered) (c : String × ℕ) (cs : List (String × ℕ))
    → c_initialize_number x ≡ some (c ∷ cs)
    → (is_one x.count ≡ true) × (cs ≡ [])
unfolding c_initialize_number
single x c cs h = (ground arith, ground arith)

fixed_field :
    (unset : ℤ) (t : TypeDef) (c : String × ℕ) (cs : List (String × ℕ))
    → IsPlain t
    → c_initialize t ≡ some (c ∷ cs)
    → (c_type unset t ≡ record { name = (c_type unset t).name; bound = none }) × (cs ≡ [])
unfolding c_initialize c_type
fixed_field unset (struct n actions) c cs plain h = cc
fixed_field unset (scalar n (number x)) c cs plain h =
    let (one, rest) = single x c cs h in
    let unbounded = one_unbounded n x.count one in (rw unbounded refl, rest)
fixed_field unset (scalar n (string l)) c cs plain h = cc
fixed_field unset (scalar n (float count display)) c cs plain h = cc
fixed_field unset (scalar n (double count display)) c cs plain h = cc
fixed_field unset (scalar n length_field) c cs plain h = cc
fixed_field unset (scalar n unixtime) c cs plain h = cc

pub both-some :
    {A : Type 0} (xs ys : Option (List A)) {out : List A}
    → both xs ys ≡ some out
    → (a : List A) × (b : List A) × (xs ≡ some a) × (ys ≡ some b) × (out ≡ a ++ b)
unfolding both
both-some none ys h = cc
both-some (some xs) none h = cc
both-some (some xs) (some ys) h = (xs, ys, refl, refl, cc)

AssignsMember-weaken :
    (unset : ℤ) (prefix name : String) (t : TypeDef) (fs : List (String × TypeDef)) (ls : List Line)
    → All (AssignsMember unset prefix fs) ls
    → All (AssignsMember unset prefix ((name, t) ∷ fs)) ls
unfolding generate_fields
AssignsMember-weaken unset prefix name t fs [] h = tt
AssignsMember-weaken unset prefix name t fs (l ∷ ls) (a, h) = (
  record {
    name = a.name;
    type_name = a.type_name;
    value = a.value;
    assigns = a.assigns;
    one_value = a.one_value;
    declared = inr a.declared;
  },
  AssignsMember-weaken unset prefix name t fs ls h,
)

initializer-AssignsMember :
    (unset : ℤ) (prefix name : String) (t : TypeDef) (fs : List (String × TypeDef))
    (c : List (String × ℕ))
    → IsPlain t
    → c_initialize t ≡ some c
    → All (AssignsMember unset prefix ((name, t) ∷ fs)) (initializer prefix name c)
unfolding initializer generate_fields
initializer-AssignsMember unset prefix name t fs [] plain h = tt
initializer-AssignsMember unset prefix name t fs (c ∷ cs) plain h =
    let (typed, single) = fixed_field unset t c cs plain h in
    (
      record {
        name = name;
        type_name = (c_type unset t).name;
        value = c ∷ cs;
        assigns = refl;
        one_value = (c, ap (λ ds. c ∷ ds) single);
        declared = inl (
            ap
              (λ (b : Option ℤ).
                print "\t\t%s %s%s%s;\n"
                  (text (c_type unset t).name ∷ (text prefix ∷ (text name ∷ (suffix b ∷ [])))))
              (sym (ap (λ (k : CType). k.bound) typed)));
      },
      tt,
    )

-- When Reset is generated for fields of which no struct has fixed values in it, each of its lines
-- gives one value to a member that the class declares under the same name, and not as an array.
pub generate_initializers-AssignsMember :
    (unset : ℤ) (prefix : String) (fs : List (String × TypeDef)) (out : List Line)
    → All PlainField fs
    → generate_initializers prefix fs ≡ some out
    → All (AssignsMember unset prefix fs) out
unfolding generate_initializers
generate_initializers-AssignsMember unset prefix [] out plain h =
    subst (λ ls. All (AssignsMember unset prefix []) ls) (some-injective _ _ h) tt
generate_initializers-AssignsMember unset prefix ((name, t) ∷ fs) out (one, plain) h =
    elim (Option-cases (c_initialize t)) [
      | inl failed ↦ absurd (ground arith)
      | inr (c, e) ↦
          let (a, b, ea, eb, together) =
            both-some (some (initializer prefix name c)) (generate_initializers prefix fs)
              (rw (e, generate_initializers) at h) in
          subst (λ ls. All (AssignsMember unset prefix ((name, t) ∷ fs)) ls) (sym together)
            (All-append (AssignsMember unset prefix ((name, t) ∷ fs)) a b
              (subst (λ ls. All (AssignsMember unset prefix ((name, t) ∷ fs)) ls)
                (some-injective _ _ ea) (initializer-AssignsMember unset prefix name t fs c one e))
              (AssignsMember-weaken unset prefix name t fs b
                (generate_initializers-AssignsMember unset prefix fs b plain eb)))
    ]

-- ===== src/Generator/Calls.antt =====
-- What the generated Parser::Process constructs and calls.
use openrom.Base.{
  ℕ, ◌≡◌, refl, sym, ap, ap₂, ◌==◌, subst, ◌∙◌, ◌⊎◌, inl, inr, arith, List, [], ◌∷◌, ◌++◌, Bool,
  ◌||◌, Option, none, some, All, All-append, Option-cases, Bool-cases, append_assoc, if◌then◌else◌,
}
use openrom.Definition.{same, TypeDef, PacketDef, ActionList}
use openrom.Generator.{
  Line, print, Value, text, joined, c_initialize, fields, find_length, total_size,
}
use openrom.Generator.Scope.{both-some}
use openrom.Generator.Recognition.{
  comparison, add_comparison, match_condition, handle_packet, handle_subpacket, packet_length_check,
  has_known_size, subpacket_length_check, recognize_subpacket, recognize_subpackets,
  handle_if_plain, recognize_packet, recognize_packets, generate_parser,
}
use mathlib.Core.Option.{some-injective}
use Prim.Native.String.{String}

-- A line of Process makes an object of a class, or calls the function with the name of one.
abbrev pub is_call : String → Bool
is_call f =
    (same f "\t\tOn%s(oRequest);\n" || same f "\t\t\tOn%s(oRequest);\n")
    || (same f "\t\t%s oRequest(pData, iDataLength);\n"
        || same f "\t\t\t%s oRequest(pData, iDataLength);\n")

-- The classes in these lines.
unfoldable pub called : List Line → List Value
called [] = []
called (l ∷ ls) = if is_call l.format then l.values ++ called ls else called ls

pub List-cases : {A : Type 0} (xs : List A) → (xs ≡ []) ⊎ ((x : A) × (ys : List A) × (xs ≡ x ∷ ys))
List-cases [] = inl refl
List-cases (x ∷ xs) = inr (x, xs, refl)

called-append : (ls ms : List Line) → called (ls ++ ms) ≡ called ls ++ called ms
unfolding called
called-append [] ms = refl
called-append (l ∷ ls) ms = elim (Bool-cases (is_call l.format)) [
  | inl call ↦ rw (call, called-append ls ms) (sym (append_assoc l.values (called ls) (called ms)))
  | inr other ↦ rw (other, called-append ls ms) refl
]

-- Two rows of lines that call nothing.
called_none : (ls ms : List Line) → called ls ≡ [] → called ms ≡ [] → called (ls ++ ms) ≡ []
called_none ls ms h k = called-append ls ms ∙ ap₂ (λ xs ys. xs ++ ys) h k

-- The conditions call nothing.
add_comparison-called :
    (before : List Line) (c : Value) (name : String) (value : List (String × ℕ))
    → called before ≡ []
    → called (add_comparison before (comparison c name value)) ≡ []
unfolding add_comparison comparison called
add_comparison-called [] c name value h = refl
add_comparison-called (b ∷ bs) c name value h =
    called_none (b ∷ bs) (print " && " [] ∷ (comparison c name value ∷ [])) h refl

match_condition-called :
    (c : Value) (fs : List (String × TypeDef)) (before out : List Line)
    → called before ≡ []
    → match_condition c fs before ≡ some out
    → called out ≡ []
unfolding match_condition
match_condition-called c [] before out h e = subst (λ ls. called ls ≡ []) (some-injective _ _ e) h
match_condition-called c ((name, t) ∷ fs) before out h e = elim (Option-cases (c_initialize t)) [
  | inl failed ↦ absurd (ground arith)
  | inr ([], i) ↦ match_condition-called c fs before out h (rw (i, match_condition) at e)
  | inr (v ∷ vs, i) ↦
      match_condition-called c fs (add_comparison before (comparison c name (v ∷ vs))) out
        (add_comparison-called before c name (v ∷ vs) h) (rw (i, match_condition) at e)
]

packet_length_check-called :
    (c : Value) (len : ℕ) (l : Option String) → called (packet_length_check c len l) ≡ []
unfolding packet_length_check called
packet_length_check-called c len none = elim (Bool-cases (len == 0)) [
  | inl z ↦ rw (z, packet_length_check) refl
  | inr p ↦ rw (p, packet_length_check) refl
]
packet_length_check-called c len (some l) = elim (Bool-cases (len == 0)) [
  | inl z ↦ rw (z, packet_length_check) refl
  | inr p ↦ rw (p, packet_length_check) refl
]

subpacket_length_check-called :
    (c : Value) (actions : ActionList) (l : Option String)
    → called (subpacket_length_check c actions l) ≡ []
unfolding subpacket_length_check called
subpacket_length_check-called c actions none = refl
subpacket_length_check-called c actions (some l) = elim (Bool-cases (has_known_size actions)) [
  | inl known ↦ rw (known, subpacket_length_check) refl
  | inr unknown ↦ rw (unknown, subpacket_length_check) refl
]

recognize_subpacket-called :
    (p : String) (length_name : Option String) (name : String) (actions : ActionList)
    (ls : List Line)
    → called ls ≡ []
    → (called (recognize_subpacket p length_name name actions ls) ≡ [])
      ⊎ (called (recognize_subpacket p length_name name actions ls)
          ≡ joined p name ∷ (joined p name ∷ []))
unfolding recognize_subpacket called handle_subpacket
recognize_subpacket-called p length_name name actions [] h = inl refl
recognize_subpacket-called p length_name name actions (l ∷ ls) h = inr (
    called-append (subpacket_length_check (joined p name) actions length_name) _
    ∙ ap₂ (λ xs ys. xs ++ ys) (subpacket_length_check-called (joined p name) actions length_name)
        (called-append (l ∷ ls) _
          ∙ ap (λ xs. xs ++ called (print ") {\n" [] ∷ handle_subpacket (joined p name))) h))

-- What may be called: a packet without subpackets, and each subpacket.
abbrev pub Subpackets : (Value → Type 0) → String → List (String × ActionList) → Type 0
Subpackets Q p [] = Unit
Subpackets Q p ((name, actions) ∷ ss) = Q (joined p name) × Subpackets Q p ss

abbrev pub Packets : (Value → Type 0) → List PacketDef → Type 0
Packets Q [] = Unit
Packets Q (p ∷ ps) =
    (p.subpackets ≡ [] → Q (text p.name)) × Subpackets Q p.name p.subpackets × Packets Q ps

module _ (Q : Value → Type 0) where
  all_of : (ls ms : List Line) → All Q (called ls) → All Q (called ms) → All Q (called (ls ++ ms))
  all_of ls ms h k =
      subst (λ vs. All Q vs) (sym (called-append ls ms)) (All-append Q (called ls) (called ms) h k)

  none_of : (ls : List Line) → called ls ≡ [] → All Q (called ls)
  none_of ls h = subst (λ vs. All Q vs) (sym h) tt

  recognize_subpacket_all :
      (p : String) (length_name : Option String) (name : String) (actions : ActionList)
      (ls : List Line)
      → Q (joined p name)
      → called ls ≡ []
      → All Q (called (recognize_subpacket p length_name name actions ls))
  recognize_subpacket_all p length_name name actions ls q h =
      elim (recognize_subpacket-called p length_name name actions ls h) [
        | inl nothing ↦ subst (λ vs. All Q vs) (sym nothing) tt
        | inr one ↦ subst (λ vs. All Q vs) (sym one) (q, (q, tt))
      ]

  recognize_subpackets_all :
      (p : String) (length_name : Option String) (ss : List (String × ActionList)) (out : List Line)
      → Subpackets Q p ss
      → recognize_subpackets p length_name ss ≡ some out
      → All Q (called out)
  unfolding recognize_subpackets called
  recognize_subpackets_all p length_name [] out q e =
      subst (λ ls. All Q (called ls)) (some-injective _ _ e) (none_of [] refl)
  recognize_subpackets_all p length_name ((name, actions) ∷ ss) out (q, qs) e =
      elim (Option-cases (match_condition (joined p name) (fields actions) [])) [
        | inl failed ↦ absurd (ground arith)
        | inr (ls, m) ↦
            let (a, b, ea, eb, out_is) =
              both-some (some (recognize_subpacket p length_name name actions ls))
                (recognize_subpackets p length_name ss) (rw (m, recognize_subpackets) at e) in
            subst (λ ls. All Q (called ls)) (sym out_is)
              (all_of a b
                (subst (λ ls. All Q (called ls)) (some-injective _ _ ea)
                  (recognize_subpacket_all p length_name name actions ls q
                    (match_condition-called (joined p name) (fields actions) [] ls refl m)))
                (recognize_subpackets_all p length_name ss b qs eb))
      ]

  handle_if_plain_all :
      (p : PacketDef) → (p.subpackets ≡ [] → Q (text p.name)) → All Q (called (handle_if_plain p))
  unfolding handle_if_plain called handle_packet
  handle_if_plain_all p q = elim (List-cases p.subpackets) [
    | inl empty ↦ rw (empty, handle_if_plain) (q empty, (q empty, tt))
    | inr (s, ss, more) ↦ rw (more, handle_if_plain) tt
  ]

  recognize_packet_all :
      (p : PacketDef) (ls out : List Line)
      → (p.subpackets ≡ [] → Q (text p.name))
      → Subpackets Q p.name p.subpackets
      → called ls ≡ []
      → recognize_packet p ls ≡ some out
      → All Q (called out)
  unfolding recognize_packet called
  recognize_packet_all p [] out q qs h e = subst (λ ls. All Q (called ls)) (some-injective _ _ e) tt
  recognize_packet_all p (l ∷ ls) out q qs h e =
      let length_name = find_length (fields p.actions) in
      let check = packet_length_check (text p.name) (total_size (fields p.actions)) length_name in
      let (a, b, ea, eb, out_is) =
        both-some
          (some
            (print "\tif (" [] ∷ (check ++ ((l ∷ ls) ++ (print ") {\n" [] ∷ handle_if_plain p)))))
          _ e in
      let (c, d, ec, ed, b_is) =
        both-some (recognize_subpackets p.name length_name p.subpackets) _ eb in
      subst (λ ms. All Q (called ms)) (sym out_is)
        (all_of a b
          (subst (λ ms. All Q (called ms)) (some-injective _ _ ea)
            (all_of check ((l ∷ ls) ++ (print ") {\n" [] ∷ handle_if_plain p))
              (none_of check (
                packet_length_check-called (text p.name) (total_size (fields p.actions))
                  length_name))
              (all_of (l ∷ ls) (print ") {\n" [] ∷ handle_if_plain p) (none_of (l ∷ ls) h)
                (handle_if_plain_all p q))))
          (subst (λ ms. All Q (called ms)) (sym b_is)
            (all_of c d (recognize_subpackets_all p.name length_name p.subpackets c qs ec)
              (subst (λ ms. All Q (called ms)) (some-injective _ _ ed) tt))))

  recognize_packets_all :
      (ps : List PacketDef) (out : List Line)
      → Packets Q ps
      → recognize_packets ps ≡ some out
      → All Q (called out)
  unfolding recognize_packets called
  recognize_packets_all [] out q e = subst (λ ls. All Q (called ls)) (some-injective _ _ e) tt
  recognize_packets_all (p ∷ ps) out (q, qs, rest) e =
      elim (Option-cases (match_condition (text p.name) (fields p.actions) [])) [
        | inl failed ↦ absurd (ground arith)
        | inr (ls, m) ↦
            let (a, b, ea, eb, out_is) =
              both-some (recognize_packet p ls) (recognize_packets ps)
                (rw (m, recognize_packets) at e) in
            subst (λ ms. All Q (called ms)) (sym out_is)
              (all_of a b
                (recognize_packet_all p ls a q qs
                  (match_condition-called (text p.name) (fields p.actions) [] ls refl m) ea)
                (recognize_packets_all ps b rest eb))
      ]

  -- What holds for every packet without subpackets and every subpacket holds for what is called.
  pub generate_parser_all :
      (ps : List PacketDef) (out : List Line)
      → Packets Q ps
      → generate_parser ps ≡ some out
      → All Q (called out)
  unfolding generate_parser called
  generate_parser_all ps out q e =
      let (a, b, ea, eb, out_is) = both-some _ _ e in
      let (c, d, ec, ed, b_is) = both-some (recognize_packets ps) _ eb in
      subst (λ ms. All Q (called ms)) (sym out_is)
        (all_of a b (subst (λ ms. All Q (called ms)) (some-injective _ _ ea) tt) (
          subst (λ ms. All Q (called ms)) (sym b_is)
            (all_of c d (recognize_packets_all ps c q ec)
              (subst (λ ms. All Q (called ms)) (some-injective _ _ ed) tt))))

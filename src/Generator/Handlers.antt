-- ===== src/Generator/Handlers.antt =====
-- The generated parser and the generated classes fit together: what Parser::Process constructs and
-- calls is declared.
use openrom.Base.{
  ◌≡◌, refl, sym, subst, ◌⊎◌, inl, inr, List, [], ◌∷◌, ◌++◌, some, All, append_assoc, if◌then◌else◌,
}
use openrom.Decode.{ℤ}
use openrom.Definition.{same, PacketDef, ActionList}
use openrom.Generator.{Line, print, Value, text, joined}
use openrom.Generator.Scope.{Among}
use openrom.Generator.Classes.{
  packet_class, subpacket_class, subpacket_classes, generate_packets, packet_handler,
  subpacket_handlers, handlers, generate_parser_class,
}
use openrom.Generator.Recognition.{generate_parser}
use Prim.Native.String.{String}
use openrom.Generator.Calls.{called, Subpackets, Packets, generate_parser_all}

-- The functions that class Parser declares, by the class that each takes.
pub handled_class : String → List Value → List Value
handled_class f (text a ∷ (text b ∷ [])) =
    if same f "\tvirtual void On%s(%s& oPacket) { }\n" then text a ∷ [] else []
handled_class f (text a ∷ (text b ∷ (text c ∷ vs))) =
    if same f "\tvirtual void On%s_%s(%s_%s& oPacket) { OnUnhandledPacket(\"%s_%s\"); }\n"
    then joined a b ∷ []
    else []
handled_class f vs = []

pub handled : List Line → List Value
handled [] = []
handled (l ∷ ls) = handled_class l.format l.values ++ handled ls

-- The classes that are declared.
pub opened_class : String → List Value → List Value
opened_class f (text a ∷ []) = if same f "class %s {\n" then text a ∷ [] else []
opened_class f (text a ∷ (text b ∷ [])) = if same f "class %s_%s {\n" then joined a b ∷ [] else []
opened_class f vs = []

pub opened : List Line → List Value
opened [] = []
opened (l ∷ ls) = opened_class l.format l.values ++ opened ls

Among-left : {A : Type 0} (a : A) (xs ys : List A) → Among a xs → Among a (xs ++ ys)
Among-left a [] ys h = absurd h
Among-left a (x ∷ xs) ys (inl e) = inl e
Among-left a (x ∷ xs) ys (inr h) = inr (Among-left a xs ys h)

Among-right : {A : Type 0} (a : A) (xs ys : List A) → Among a ys → Among a (xs ++ ys)
Among-right a [] ys h = h
Among-right a (x ∷ xs) ys h = inr (Among-right a xs ys h)

handled-append : (ls ms : List Line) → handled (ls ++ ms) ≡ handled ls ++ handled ms
unfolding handled
handled-append [] ms = refl
handled-append (l ∷ ls) ms =
    rw (handled-append ls ms)
      (sym (append_assoc (handled_class l.format l.values) (handled ls) (handled ms)))

opened-append : (ls ms : List Line) → opened (ls ++ ms) ≡ opened ls ++ opened ms
unfolding opened
opened-append [] ms = refl
opened-append (l ∷ ls) ms =
    rw (opened-append ls ms)
      (sym (append_assoc (opened_class l.format l.values) (opened ls) (opened ms)))

module _ {Q R : Value → Type 0} (f : (v : Value) → Q v → R v) where
  Subpackets-map :
      (p : String) (ss : List (String × ActionList)) → Subpackets Q p ss → Subpackets R p ss
  Subpackets-map p [] h = tt
  Subpackets-map p ((name, actions) ∷ ss) (q, h) = (f (joined p name) q, Subpackets-map p ss h)

  Packets-map : (ps : List PacketDef) → Packets Q ps → Packets R ps
  Packets-map [] h = tt
  Packets-map (p ∷ ps) (q, qs, h) =
      (λ e. f (text p.name) (q e), Subpackets-map p.name p.subpackets qs, Packets-map ps h)

Among-handled :
    (ls ms : List Line) (v : Value)
    → Among v (handled ls) ⊎ Among v (handled ms)
    → Among v (handled (ls ++ ms))
Among-handled ls ms v (inl h) =
    subst (λ vs. Among v vs) (sym (handled-append ls ms)) (Among-left v (handled ls) (handled ms) h)
Among-handled ls ms v (inr h) =
    subst (λ vs. Among v vs) (sym (handled-append ls ms))
      (Among-right v (handled ls) (handled ms) h)

Among-opened :
    (ls ms : List Line) (v : Value)
    → Among v (opened ls) ⊎ Among v (opened ms)
    → Among v (opened (ls ++ ms))
Among-opened ls ms v (inl h) =
    subst (λ vs. Among v vs) (sym (opened-append ls ms)) (Among-left v (opened ls) (opened ms) h)
Among-opened ls ms v (inr h) =
    subst (λ vs. Among v vs) (sym (opened-append ls ms)) (Among-right v (opened ls) (opened ms) h)

Subpackets-handled :
    (p : PacketDef) (ss : List (String × ActionList))
    → Subpackets (λ v. Among v (handled (subpacket_handlers p ss))) p.name ss
unfolding subpacket_handlers handled handled_class
Subpackets-handled p [] = tt
Subpackets-handled p ((name, actions) ∷ ss) = (
  inl refl,
  Subpackets-map {Q = λ v. Among v (handled (subpacket_handlers p ss))}
      {R = λ v. Among v (handled (subpacket_handlers p ((name, actions) ∷ ss)))} (λ v h. inr h)
      p.name ss (Subpackets-handled p ss),
)

packet_handled :
    (p : PacketDef) → p.subpackets ≡ [] → Among (text p.name) (handled (packet_handler p))
unfolding packet_handler handled handled_class
packet_handled p empty = rw (empty, packet_handler) (inl refl)

Packets-handled : (ps : List PacketDef) → Packets (λ v. Among v (handled (handlers ps))) ps
unfolding handlers
Packets-handled [] = tt
Packets-handled (p ∷ ps) =
    let subs = subpacket_handlers p p.subpackets in
    (
      λ e.
          Among-handled (packet_handler p) (subs ++ handlers ps) (text p.name)
            (inl (packet_handled p e)),
      Subpackets-map
          (λ v h.
            Among-handled (packet_handler p) (subs ++ handlers ps) v
              (inr (Among-handled subs (handlers ps) v (inl h))))
          p.name p.subpackets (Subpackets-handled p p.subpackets),
      Packets-map
          (λ v h.
            Among-handled (packet_handler p) (subs ++ handlers ps) v
              (inr (Among-handled subs (handlers ps) v (inr h))))
          ps (Packets-handled ps),
    )

Subpackets-opened :
    (unset : ℤ) (p : PacketDef) (ss : List (String × ActionList))
    → Subpackets (λ v. Among v (opened (subpacket_classes unset p ss))) p.name ss
unfolding subpacket_classes subpacket_class opened opened_class
Subpackets-opened unset p [] = tt
Subpackets-opened unset p ((name, actions) ∷ ss) = (
  Among-opened (subpacket_class unset p (name, actions)) (subpacket_classes unset p ss)
      (joined p.name name) (inl (inl refl)),
  Subpackets-map
      (λ v h.
        Among-opened (subpacket_class unset p (name, actions)) (subpacket_classes unset p ss) v
          (inr h))
      p.name ss (Subpackets-opened unset p ss),
)

packet_opened : (unset : ℤ) (p : PacketDef) → Among (text p.name) (opened (packet_class unset p))
unfolding packet_class opened opened_class
packet_opened unset p = inl refl

Packets-opened :
    (unset : ℤ) (ps : List PacketDef)
    → Packets (λ v. Among v (opened (generate_packets unset ps))) ps
unfolding generate_packets
Packets-opened unset [] = tt
Packets-opened unset (p ∷ ps) =
    let rest = print "\n" [] ∷ generate_packets unset ps in
    let subs = subpacket_classes unset p p.subpackets in
    let own = packet_class unset p in
    (
      λ e. Among-opened own (subs ++ rest) (text p.name) (inl (packet_opened unset p)),
      Subpackets-map
          (λ v h. Among-opened own (subs ++ rest) v (inr (Among-opened subs rest v (inl h)))) p.name
          p.subpackets (Subpackets-opened unset p p.subpackets),
      Packets-map
          (λ v h. Among-opened own (subs ++ rest) v (
            inr (
              Among-opened subs rest v
                (inr (Among-opened (print "\n" [] ∷ []) (generate_packets unset ps) v (inr h))))))
          ps (Packets-opened unset ps),
    )

in_class :
    (ps : List PacketDef) (v : Value)
    → Among v (handled (handlers ps))
    → Among v (handled (generate_parser_class ps))
unfolding generate_parser_class handled handled_class
in_class ps v h = Among-handled (handlers ps) (print "};\n" [] ∷ []) v (inl h)

-- When the code of the parser is generated, every class of which its Process makes an object, or whose
-- function it calls with an object, is declared by GeneratePackets, and for every such class
-- GenerateParserClass declares the function.
pub generate_parser-Declared :
    (unset : ℤ) (ps : List PacketDef) (out : List Line)
    → generate_parser ps ≡ some out
    → All (λ v. Among v (opened (generate_packets unset ps))) (called out)
      × All (λ v. Among v (handled (generate_parser_class ps))) (called out)
generate_parser-Declared unset ps out e = (
  generate_parser_all (λ v. Among v (opened (generate_packets unset ps))) ps out
      (Packets-opened unset ps) e,
  generate_parser_all (λ v. Among v (handled (generate_parser_class ps))) ps out
      (Packets-map (in_class ps) ps (Packets-handled ps)) e,
)

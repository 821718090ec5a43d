-- ===== src/Capture/Flows.antt =====
-- The map of the flows: what is found after an insertion and after a change.
use openrom.Base.{
  subst, ◌≡◌, refl, arith, ◌⊎◌, inl, inr, [], ◌∷◌, true, false, none, some, Bool-cases,
  Option-cases, if◌then◌else◌,
}
use openrom.Flow.{Flow, Endpoints, new_flow}
use openrom.Flow.Order.{endpoints_less-irreflexive, endpoints_less-antisymmetric}
use openrom.Capture.{FlowMap, same_connection, find_flow, insert_flow, set_flow, hook_up}

pub same_connection_eq : (a b : Endpoints) → same_connection a b ≡ true → a ≡ b
unfolding same_connection
same_connection_eq a b h = endpoints_less-antisymmetric a b (ground arith) (ground arith)

pub same_connection_refl : (a : Endpoints) → same_connection a a ≡ true
unfolding same_connection
same_connection_refl a = ground (arith, endpoints_less-irreflexive a)

-- Two connections are the same or not.
pub connections : (a b : Endpoints) → (a ≡ b) ⊎ (same_connection a b ≡ false)
connections a b = elim (Bool-cases (same_connection a b)) [
  | inl e ↦ inl (same_connection_eq a b e)
  | inr n ↦ inr n
]

-- A statement about all connections, from that of one and those of the others.
pub each :
    (P : Endpoints → Type 0) (k : Endpoints)
    → P k
    → ((e : Endpoints) → same_connection k e ≡ false → P e)
    → (e : Endpoints) → P e
each P k own other e = elim (connections k e) [
  | inl same ↦ subst P same own
  | inr differs ↦ other e differs
]

pub same_connection_sym :
    (a b : Endpoints) → same_connection a b ≡ false → same_connection b a ≡ false
unfolding same_connection
same_connection_sym a b h = ground arith

find-insert :
    (k e : Endpoints) (f : Flow) (m : FlowMap)
    → find_flow k m ≡ none
    → find_flow e (insert_flow k f m) ≡ (if same_connection k e then some f else find_flow e m)
unfolding find_flow insert_flow
find-insert k e f [] new = refl
find-insert k e f ((j, g) ∷ rest) new = ground (
  arith,
  find-insert k e f rest,
  same_connection_eq k e,
  same_connection_eq j e,
  same_connection_refl e,
)

pub find-set :
    (k e : Endpoints) (f g : Flow) (m : FlowMap)
    → find_flow k m ≡ some g
    → find_flow e (set_flow k f m) ≡ (if same_connection k e then some f else find_flow e m)
unfolding find_flow set_flow
find-set k e f g [] old = cc
find-set k e f g ((j, h) ∷ rest) old = ground (
  arith,
  find-set k e f g rest,
  same_connection_eq k e,
  same_connection_eq j e,
  same_connection_eq j k,
  same_connection_refl e,
)

-- A flow that no packet was appended to.
abbrev pub fresh : Flow
fresh = record { bytes = []; buffer_size = 262000; current_data_offset = 0 }

unfoldable pub flow_of : Endpoints → FlowMap → Flow
flow_of e m = elim (find_flow e m) [ none ↦ fresh | some f ↦ f ]

pub hook_up_lem :
    (k : Endpoints) (m : FlowMap)
    → (m' : FlowMap) × (hook_up k m ≡ some (flow_of k m, m'))
      × (find_flow k m' ≡ some (flow_of k m))
      × ((e : Endpoints) → flow_of e m' ≡ flow_of e m)
unfolding hook_up flow_of new_flow
hook_up_lem k m = elim (Option-cases (find_flow k m)) [
  | inl new ↦ (
    insert_flow k fresh m,
    rw (new, hook_up, new_flow, flow_of) refl,
    rw (new, find-insert k k fresh m new, same_connection_refl k, flow_of) refl,
    λ e. elim (connections k e) [
      | inl same ↦
          subst (λ x. flow_of x (insert_flow k fresh m) ≡ flow_of x m) same
            (rw (find-insert k k fresh m new, new, same_connection_refl k, flow_of) refl)
      | inr differs ↦ rw (find-insert k e fresh m new, differs, flow_of) refl
    ],
  )
  | inr (f, old) ↦ (m, rw (old, hook_up, flow_of) refl, rw (old, flow_of) refl, λ e. refl)
]

pub flow_of-set :
    (k e : Endpoints) (f g : Flow) (m : FlowMap)
    → find_flow k m ≡ some g
    → flow_of e (set_flow k f m) ≡ (if same_connection k e then f else flow_of e m)
unfolding flow_of
flow_of-set k e f g m old = ground (arith, find-set k e f g m old)

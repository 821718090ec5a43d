-- ===== src/Capture/Passes.antt =====
-- A pass of romdump's loop: what it does to the flow of its connection, and to the others.
use openrom.Base.{
  ℕ, suc, ◌+◌, ◌^◌, ◌≤◌, ◌<◌, ◌≡◌, refl, sym, ap, subst, ◌∙◌, arith, Bool, List, ◌++◌, false, some,
  length, drop, length-append, drop-append_le, length-drop, ap₂,
}
use openrom.Flow.{Flow, Endpoints, analyze_flow, analyzed}
use openrom.Flow.Growth.{append_lem, append-offset}
use openrom.Capture.{Capture, same_connection, set_flow, calls_of, consumed, analyzed_flow, take_in}
use openrom.Capture.Splitting.{
  Splits, numbered, Splits-drop, drop-drop, consumed-le, analyze-Splits,
}
use openrom.Capture.Flows.{flow_of, hook_up_lem, flow_of-set, same_connection_refl}

-- The bytes of a flow that AnalyzeFlow has not taken.
unfoldable pub waiting : Flow → List ℕ
waiting f = drop f.current_data_offset f.bytes

pub record IsReady (f : Flow) : Type 0 where
  pub has_buffer : 0 < f.buffer_size
  pub offset_inside : f.current_data_offset ≤ length f.bytes

-- What a pass leaves of the flow of its connection, and of the others.
pub record TookIn (k : Endpoints) (bytes : List ℕ) (c c' : Capture) (left : List ℕ) : Type 0 where
  pub still_ready : IsReady (flow_of k c'.flows)
  pub left_over : waiting (flow_of k c'.flows) ≡ left
  pub longer : (flow_of k c'.flows).bytes ≡ (flow_of k c.flows).bytes ++ bytes
  pub others :
      (e : Endpoints) → same_connection k e ≡ false → flow_of e c'.flows ≡ flow_of e c.flows

module _ (keepalive : Bool) where
  pub advanced-IsReady :
      (f f' : Flow) (bytes : List ℕ) (sequence : ℕ) {ps : List (List ℕ)} {left : List ℕ}
      → IsReady f
      → 0 < length bytes
      → f'.bytes ≡ f.bytes ++ bytes
      → f'.current_data_offset ≡ f.current_data_offset
      → length f'.bytes ≤ f'.buffer_size
      → Splits keepalive (waiting f ++ bytes) ps left
      → (waiting f' ≡ waiting f ++ bytes)
        × IsReady (record f' {
          current_data_offset = f'.current_data_offset + consumed (numbered sequence ps);
        })
        × (waiting (record f' {
          current_data_offset = f'.current_data_offset + consumed (numbered sequence ps);
        })
            ≡ left)
  unfolding flow_of waiting
  advanced-IsReady f f' bytes sequence {ps} r some_bytes b o fits s =
      let more : waiting f' ≡ waiting f ++ bytes =
        ap₂ (λ n xs. drop n xs) o b
        ∙ drop-append_le f.current_data_offset f.bytes bytes r.offset_inside in
      (
        more,
        record {
          has_buffer = omega (arith, ap length b, length-append {0} f.bytes bytes);
          offset_inside = omega (
            arith,
            ap length b,
            length-append {0} f.bytes bytes,
            consumed-le keepalive sequence s,
            length-append {0} (waiting f) bytes,
            length-drop f.current_data_offset f.bytes,
          );
        },
        drop-drop f'.current_data_offset (consumed (numbered sequence ps)) f'.bytes
            ∙ ap (λ d. drop (consumed (numbered sequence ps)) d) more
            ∙ Splits-drop keepalive sequence s,
      )

  pub take_in_lem :
      (k : Endpoints) (bytes : List ℕ) (c : Capture) {ps : List (List ℕ)} {left : List ℕ}
      → IsReady (flow_of k c.flows)
      → 0 < length bytes
      → length (flow_of k c.flows).bytes + length bytes ≤ 2 ^ 31
      → Splits keepalive (waiting (flow_of k c.flows) ++ bytes) ps left
      → (c' : Capture) × (take_in keepalive k bytes c
          ≡ some (c', calls_of k (numbered c.sequence ps)))
        × (c'.sequence ≡ c.sequence + length ps)
        × TookIn k bytes c c' left
  unfolding take_in analyzed_flow waiting analyze_flow
  take_in_lem k bytes c {ps} {left} r some_bytes small s =
      let f = flow_of k c.flows in
      let (m, hooked, found, same) = hook_up_lem k c.flows in
      let (f', appended, b, fits) = append_lem f bytes r.has_buffer small in
      let (more, ready, over) =
        advanced-IsReady f f' bytes c.sequence r some_bytes b (append-offset f f' bytes appended)
          fits s in
      let f'' : Flow = record f' {
        current_data_offset = f'.current_data_offset + consumed (numbered c.sequence ps);
      } in
      let set = λ (e : Endpoints). flow_of-set k e f'' f m found in
      let own : flow_of k (set_flow k f'' m) ≡ f'' = rw (set k, same_connection_refl k) refl in
      let analysis : analyze_flow keepalive f' c.sequence
          ≡ analyzed (numbered c.sequence ps) left (c.sequence + length ps) =
        analyze-Splits keepalive (suc (length f'.bytes)) c.sequence
          (subst (λ d. Splits keepalive d ps left) (sym more) s)
          (omega (arith, length-drop f'.current_data_offset f'.bytes)) in
      (
        record { flows = set_flow k f'' m; sequence = c.sequence + length ps },
        rw (take_in, hooked, appended, analysis, analyzed_flow) refl,
        refl,
        record {
          still_ready = subst (λ x. IsReady x) (sym own) ready;
          left_over = ap waiting own ∙ over;
          longer = ap (λ (x : Flow). x.bytes) own ∙ b;
          others = λ e differs. rw (set e, differs) (same e);
        },
      )

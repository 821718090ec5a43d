-- ===== src/Capture/Calls.antt =====
-- The calls of AnalyzePacket: their numbers, and those of one connection.
use openrom.Base.{
  ℕ, suc, ◌+◌, ◌≡◌, refl, subst, arith, List, [], ◌∷◌, ◌++◌, false, length, if◌then◌else◌,
}
use openrom.Flow.{Endpoints}
use openrom.Capture.{Call, same_connection, calls_of}
use openrom.Capture.Splitting.{numbered}
use openrom.Capture.Flows.{same_connection_refl}

-- The packets of one connection that went to AnalyzePacket.
unfoldable pub packets_of : Endpoints → List Call → List (List ℕ)
packets_of e [] = []
packets_of e (c ∷ cs) =
    if same_connection c.connection e then c.bytes ∷ packets_of e cs else packets_of e cs

-- The calls have the numbers from `sequence` up to `next`.
abbrev pub Consecutive : ℕ → List Call → ℕ → Type 0
Consecutive sequence [] next = next ≡ sequence
Consecutive sequence (c ∷ cs) next = (c.sequence ≡ sequence) × Consecutive (suc sequence) cs next

pub Consecutive-append :
    (sequence middle next : ℕ) (cs ds : List Call)
    → Consecutive sequence cs middle
    → Consecutive middle ds next
    → Consecutive sequence (cs ++ ds) next
Consecutive-append sequence middle next [] ds h k = subst (λ n. Consecutive n ds next) h k
Consecutive-append sequence middle next (c ∷ cs) ds (e, h) k =
    (e, Consecutive-append (suc sequence) middle next cs ds h k)

pub calls_of-Consecutive :
    (k : Endpoints) (sequence : ℕ) (ps : List (List ℕ))
    → Consecutive sequence (calls_of k (numbered sequence ps)) (sequence + length ps)
unfolding calls_of numbered
calls_of-Consecutive k sequence [] = omega arith
calls_of-Consecutive k sequence (p ∷ ps) = (
  refl,
  subst (λ n. Consecutive (suc sequence) (calls_of k (numbered (suc sequence) ps)) n) (omega arith)
      (calls_of-Consecutive k (suc sequence) ps),
)

pub packets_of-append :
    (e : Endpoints) (cs ds : List Call)
    → packets_of e (cs ++ ds) ≡ packets_of e cs ++ packets_of e ds
unfolding packets_of
packets_of-append e [] ds = refl
packets_of-append e (c ∷ cs) ds = ground (arith, packets_of-append e cs ds)

pub packets_of-own :
    (k : Endpoints) (sequence : ℕ) (ps : List (List ℕ))
    → packets_of k (calls_of k (numbered sequence ps)) ≡ ps
unfolding packets_of calls_of numbered
packets_of-own k sequence [] = refl
packets_of-own k sequence (p ∷ ps) =
    rw (same_connection_refl k, packets_of-own k (suc sequence) ps) refl

pub packets_of-other :
    (k e : Endpoints) (sequence : ℕ) (ps : List (List ℕ))
    → same_connection k e ≡ false
    → packets_of e (calls_of k (numbered sequence ps)) ≡ []
unfolding packets_of calls_of numbered
packets_of-other k e sequence [] h = refl
packets_of-other k e sequence (p ∷ ps) h = rw (h, packets_of-other k e (suc sequence) ps h) refl

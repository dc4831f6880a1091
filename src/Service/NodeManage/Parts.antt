-- ===== src/Service/NodeManage/Parts.antt =====
-- The chunks of a request, in src/service/node_manage.rs, and what a lookup collects of one.
use plc_service_rust.Base.{
  ℕ, zero, suc, String, Outcome, ok, err, panic, Bool, true, drop, chunks_loop, All-snoc, All-take,
  All-drop, All-map, ◌++◌, if◌then◌else◌, List, [], ◌∷◌, false, All, ◌≡◌, subst,
}
use plc_service_rust.Service.Action.{Action, ServiceError, continue}
use plc_service_rust.Service.Dict.{same}
use plc_service_rust.Service.NodeConfig.{NodeInfo, NodeConfig}
use plc_service_rust.Service.NodeManage.{
  Event, answered, timed_out, cleared, loaded, taken, collect,
}
use plc_service_rust.Service.NodeManage.Waiting.{IsApart, AreApart}
use plc_service_rust.Service.NodeManage.Adding.{Lacks}

-- What lacks an address with the whole lacks it with a part.
abbrev pub Within : List NodeInfo → List NodeInfo → Type 0
Within part nodes = (a : String) → Lacks nodes a → Lacks part a

part-IsApart :
    (part nodes : List NodeInfo) (e : Event) → Within part nodes → IsApart nodes e → IsApart part e
part-IsApart part nodes (answered f) w h = tt
part-IsApart part nodes timed_out w h = tt
part-IsApart part nodes (cleared f) w h = tt
part-IsApart part nodes taken w h = tt
part-IsApart part nodes (loaded entries) w h =
    All-map (λ entry. All (λ node. Lacks nodes node.acq_addr) entry.1)
      (λ entry. All (λ node. Lacks part node.acq_addr) entry.1) entries
      (λ entry q.
        All-map (λ node. Lacks nodes node.acq_addr) (λ node. Lacks part node.acq_addr) entry.1
          (λ node l. w node.acq_addr l) q)
      h

pub part-AreApart :
    (part nodes : List NodeInfo) (waits : List (List Event))
    → Within part nodes
    → AreApart nodes waits
    → AreApart part waits
part-AreApart part nodes waits w h =
    All-map (λ events. All (IsApart nodes) events) (λ events. All (IsApart part) events) waits
      (λ events q.
        All-map (IsApart nodes) (IsApart part) events (λ e r. part-IsApart part nodes e w r) q)
      h

module _ {Storage : Type 0} where
  -- What is collected of a chunk is in it.
  pub collect-Lacks :
      (test : NodeInfo → Action (NodeConfig Storage) Bool) (wanted : Bool → Bool) (a : String)
      (nodes collected out : List NodeInfo) (s : NodeConfig Storage)
      → Lacks nodes a
      → Lacks collected a
      → (collect test wanted nodes collected s).1 ≡ ok out
      → Lacks out a
  unfolding collect
  collect-Lacks test wanted a [] collected out s l k h =
      let same_ : collected ≡ out = cc in subst (λ xs. Lacks xs a) same_ k
  collect-Lacks test wanted a (node ∷ nodes) collected out s (q, l) k h =
      let next : Bool → List NodeInfo =
        λ answer. if wanted answer then collected ++ (node ∷ []) else collected in
      after (test node s)
        (λ answer z f.
          collect-Lacks test wanted a nodes (next answer) out z l (grown (wanted answer)) f)
        h
    where
      grown : (b : Bool) → Lacks (if b then collected ++ (node ∷ []) else collected) a
      grown true = All-snoc (λ y. same a y.acq_addr ≡ false) collected node k q
      grown false = k

      after :
          (r : NodeConfig Storage × Outcome ServiceError Bool)
          → ((answer : Bool) (z : NodeConfig Storage)
              → (collect test wanted nodes
                  (if wanted answer then collected ++ (node ∷ []) else collected)
                  z).1
                ≡ ok out
              → Lacks out a)
          → (continue r (λ answer.
              collect test wanted nodes
                (if wanted answer then collected ++ (node ∷ []) else collected))).1
            ≡ ok out
          → Lacks out a
      after (z, ok answer) next f = next answer z f
      after (z, err e) next f = absurd (cc f)
      after (z, panic) next f = absurd (cc f)

-- The parts of a request are within it.
pub chunks-Within :
    (fuel n : ℕ) (xs nodes : List NodeInfo)
    → Within xs nodes
    → All (λ part. Within part nodes) (chunks_loop fuel n xs)
unfolding chunks_loop
chunks-Within fuel n [] nodes w = tt
chunks-Within zero n (x ∷ xs) nodes w = tt
chunks-Within (suc fuel) n (x ∷ xs) nodes w = (
  λ a l. All-take (λ y. same a y.acq_addr ≡ false) n (x ∷ xs) (w a l),
  chunks-Within fuel n (drop n (x ∷ xs)) nodes
      (λ a l. All-drop (λ y. same a y.acq_addr ≡ false) n (x ∷ xs) (w a l)),
)

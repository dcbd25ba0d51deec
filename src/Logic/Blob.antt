-- ===== src/Logic/Blob.antt =====
-- dht/logic.go, `FetchBlob`: where the bytes come from.
use webrtc_dht.Prelude.{
  ℕ, ◌≤◌, ◌<◌, ◌≡◌, refl, sym, ◌∙◌, ap, subst, ◌≢◌, false, none, some, List, [], ◌∷◌, ◌++◌, arith,
  if_pos, length, All, Text,
}
use mathlib.Core.List.{Mem, mem-cons, not-mem-nil}
use mathlib.Core.List.Perm
use mathlib.Core.Logic.Or
use webrtc_dht.Key.{
  NodeId, IsKey, key_eq, get_key_distance, get_key_distance_cancel, get_key_distance_self,
}
use mathlib.Core.HLevel.{hedberg}
use native.Mathlib.Bridge.{le_prop}
use webrtc_dht.Node.Laws.{IsNode}
use webrtc_dht.Types.{NetworkNode, ValueMeta}
use webrtc_dht.Routing.{RoutingTable, find_closest}
use webrtc_dht.Routing.Closest.{
  contacts, distance_to, IsClosest, find_closest-IsClosest, All-find_closest, IsPlaced-contacts,
}
use webrtc_dht.Routing.Invariant.{IsPeer, IsValid, IsValid-IsPlaced}
use webrtc_dht.Node.{Node}
use webrtc_dht.Storage.{as_blob_store}
use webrtc_dht.Storage.Files.{Formats}
use webrtc_dht.Transport.{Transport}
use webrtc_dht.Logic.{fetch_blob, fetch_ref, ask_blob_node, local_blob}

all_mem :
    (P : NetworkNode → Type 0) (a : NetworkNode) (xs : List NetworkNode)
    → IsProp (P a)
    → All P xs
    → Mem a xs
    → P a
all_mem P a [] c h m = absurd (not-mem-nil m)
all_mem P a (x ∷ xs) c h m =
    Or.elim c (mem-cons.0 m) (λ e. subst P (sym e) h.0) (all_mem P a xs c h.1)

-- A contact at distance zero is the one that is looked for.
at_zero : {a b : NodeId} → IsKey a → IsKey b → get_key_distance a b ≤ 0 → a ≡ b
at_zero {a} {b} p q h = get_key_distance_cancel a p q (get_key_distance_self a ∙ sym (le_zero h))
  where
    le_zero : {n : ℕ} → n ≤ 0 → n ≡ 0
    le_zero h = omega arith

nonempty : (a : NetworkNode) (xs : List NetworkNode) → Mem a xs → 0 < length xs
nonempty a [] m = absurd (not-mem-nil m)
nonempty a (x ∷ xs) m = omega arith

module _ (rt : RoutingTable) (n : NetworkNode) (v : IsValid rt) (key : IsPeer n)
    (here : Mem n (contacts rt)) where
  closest : IsClosest (contacts rt) (find_closest rt n.id 1) n.id 1
  closest = find_closest-IsClosest rt n.id 1

  keys : All (λ m. IsPeer m × (rt.node_id ≢ m.id)) (find_closest rt n.id 1)
  keys = All-find_closest _ rt n.id 1 (IsPlaced-contacts rt (IsValid-IsPlaced v))

  one :
      (l : List NetworkNode)
      → find_closest rt n.id 1 ≡ l
      → (m : NetworkNode) × (find_closest rt n.id 1 ≡ m ∷ []) × (m.id ≡ n.id)
  one [] e =
      absurd (omega (arith, closest.size, ap {B = ℕ} length e, nonempty n (contacts rt) here))
  one (m ∷ x ∷ xs) e = absurd (omega (arith, closest.size, ap {B = ℕ} length e))
  one (m ∷ []) e = (
    m,
    e,
    Or.elim (hedberg key_eq m.id n.id) (mem-cons.0 found)
        (λ same. ap (λ (x : NetworkNode). x.id) (sym same))
        (λ other. at_zero is_key key (nearer other)),
  )
    where
      is_key : IsPeer m
      is_key = (subst (All (λ (x : NetworkNode). IsPeer x × (rt.node_id ≢ x.id))) e keys).0.0

      found : Mem n (m ∷ closest.others)
      found = subst (λ l. Mem n (l ++ closest.others)) e ((Perm.mem_iff closest.parts).1 here)

      nearest : All (λ (x : NetworkNode). distance_to n.id m ≤ distance_to n.id x) closest.others
      nearest =
          (subst
            (All (λ (y : NetworkNode).
              All (λ (x : NetworkNode). distance_to n.id y ≤ distance_to n.id x) closest.others))
            e closest.nearest).0

      nearer : Mem n closest.others → get_key_distance m.id n.id ≤ 0
      nearer other = omega (
        arith,
        get_key_distance_self n.id,
        all_mem (λ x. distance_to n.id m ≤ distance_to n.id x) n _ le_prop nearest other,
      )

-- The nearest contact to an identifier of the table is the one that has it.
pub find_closest_self :
    (rt : RoutingTable) (n : NetworkNode)
    → IsValid rt
    → IsPeer n
    → Mem n (contacts rt)
    → (m : NetworkNode) × (find_closest rt n.id 1 ≡ m ∷ []) × (m.id ≡ n.id)
find_closest_self rt n v key here = one rt n v key here (find_closest rt n.id 1) refl

-- A blob that is not at hand is asked of the node that has it, whenever a contact with that
-- identifier is in the table; what that node answers is the result.
pub fetch_blob-asks :
    (F : Formats) (T : Transport) (w : T.World) (node : Node) (meta : ValueMeta) (n : NetworkNode)
    → IsNode node
    → IsPeer n
    → Mem n (contacts node.rt)
    → n.id ≡ meta.blob_node
    → meta.inline ≡ false
    → meta.blob_ref ≢ []
    → as_blob_store node.storage ≡ none
    → (m : NetworkNode) × (m.id ≡ meta.blob_node)
      × (fetch_blob F T w node (some meta) ≡ T.fetch_blob w m meta.blob_ref)
unfolding fetch_blob fetch_ref ask_blob_node local_blob
fetch_blob-asks F T w node meta n v key here same apart ref store = asked meta.blob_ref refl
  where
    asked :
        (r : Text)
        → meta.blob_ref ≡ r
        → (m : NetworkNode) × (m.id ≡ meta.blob_node)
          × (fetch_blob F T w node (some meta) ≡ T.fetch_blob w m meta.blob_ref)
    asked [] e = absurd (ref e)
    asked (c ∷ cs) e =
        let (m, found, is) = find_closest_self node.rt n v.table key here in
        let hit : (ask_blob_node F T w meta.blob_node (c ∷ cs) (m ∷ [])
            ≡ T.fetch_blob w m (c ∷ cs)) =
          if_pos (key_eq m.id meta.blob_node) (is ∙ same) _ _ in
        let at : find_closest node.rt meta.blob_node 1 ≡ m ∷ [] = rw same at found in
        (m, is ∙ same, ground (arith, apart, e, store, at, hit))

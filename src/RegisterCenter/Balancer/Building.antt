-- ===== src/RegisterCenter/Balancer/Building.antt =====
-- The picker that `Build` of Common/RegisterCenter/ServiceBalancer.go makes of the ready connections.
use mathlib.Core.List.{Memᴰ}
use mathlib.Core.List.Memᴰ
use algogateway.RegisterCenter.Balancer.{TdPicker, new_picker, add_ready, build_from}
use algogateway.RegisterCenter.Balancer.Ring.{HashRing, added}
use algogateway.Common.{
  All, All-insert, same_iff, lookup-insert, same, Bool-cases, Option-cases, lookup, Bytes, ◌∙◌,
  refl, arith, ap, ◌≡◌, ◌∷◌, some, inr, inl, [], List,
}
use algogateway.RegisterCenter.Options.{VirtualNode, Address}
use mathlib.Core.Path.{subst}

module _ (ring : HashRing) (Conn : Type 0) where
  open ring use {new, add}

  abbrev pub Ready : Type 0
  Ready = List (Conn × Address)

  -- A ready connection whose node has that key.
  abbrev pub ReadyAt : Ready → Bytes → Conn → Type 0
  ReadyAt ready key conn =
      (address : Address) × (vn : VirtualNode) × Memᴰ (conn, address) ready
      × (address.info ≡ some vn)
      × (vn.key ≡ key)

  -- A ready connection whose node stands for a service at that address.
  abbrev pub ServesAddr : Ready → Bytes → Conn → Type 0
  ServesAddr ready addr conn =
      (address : Address) × (vn : VirtualNode) × Memᴰ (conn, address) ready
      × (address.info ≡ some vn)
      × (vn.rn.addr ≡ addr)

  -- What the maps and the ring of a picker hold, for the ready connections that were added.
  pub record IsBuilt (ready : Ready) (keys : List Bytes) (p : TdPicker ring Conn) : Type 0 where
    pub ring_keys : p.hash ≡ added new add keys
    pub keys_conn : (k : Bytes) → Memᴰ k keys → (c : Conn) × (lookup k p.k2conn ≡ some c)
    pub conn_ready : (k : Bytes) (c : Conn) → lookup k p.k2conn ≡ some c → ReadyAt ready k c
    pub addr_ready : (a : Bytes) (c : Conn) → lookup a p.addr2conn ≡ some c → ServesAddr ready a c
    pub entries_ready : All (λ (e : Bytes × Conn). ReadyAt ready e.0 e.1) p.k2conn
    pub no_keys : keys ≡ [] → p.k2conn ≡ []

  pub new_picker-IsBuilt : (ready : Ready) → IsBuilt ready [] (new_picker ring Conn)
  unfolding lookup
  new_picker-IsBuilt ready = record {
    ring_keys = refl;
    keys_conn = λ k m. elim m [ ];
    conn_ready = λ k c e. absurd (ground arith);
    addr_ready = λ a c e. absurd (ground arith);
    entries_ready = tt;
    no_keys = λ e. refl;
  }

  module _ (ready : Ready) (keys : List Bytes) (conn : Conn) (address : Address) (vn : VirtualNode)
      (p : TdPicker ring Conn) (here : Memᴰ (conn, address) ready) (node : address.info ≡ some vn)
      (built : IsBuilt ready keys p) where
    add_ready-keys_conn :
        (k : Bytes)
        → Memᴰ k (vn.key ∷ keys)
        → (c : Conn) × (lookup k (add_ready ring Conn conn vn p).k2conn ≡ some c)
    unfolding add_ready
    add_ready-keys_conn k m = elim (Bool-cases (same vn.key k)) [
      | inl hit ↦ (conn, lookup-insert vn.key k conn p.k2conn ∙ rw hit)
      | inr miss ↦ elim (Memᴰ.cases_cons m) [
        | inl e ↦ absurd (ground (arith, same_iff vn.key k))
        | inr later ↦
            let (c, found) = built.keys_conn k later in
            (c, lookup-insert vn.key k conn p.k2conn ∙ rw miss found)
      ]
    ]

    add_ready-conn_ready :
        (k : Bytes) (c : Conn)
        → lookup k (add_ready ring Conn conn vn p).k2conn ≡ some c
        → ReadyAt ready k c
    unfolding add_ready
    add_ready-conn_ready k c e = elim (Bool-cases (same vn.key k)) [
      | inl hit ↦
          let q : conn ≡ c = ground (arith, lookup-insert vn.key k conn p.k2conn) in
          (
            address,
            vn,
            subst (λ x. Memᴰ (x, address) ready) q here,
            node,
            (same_iff vn.key k).0 hit,
          )
      | inr miss ↦ built.conn_ready k c (ground (arith, lookup-insert vn.key k conn p.k2conn))
    ]

    add_ready-addr_ready :
        (a : Bytes) (c : Conn)
        → lookup a (add_ready ring Conn conn vn p).addr2conn ≡ some c
        → ServesAddr ready a c
    unfolding add_ready
    add_ready-addr_ready a c e = elim (Bool-cases (same vn.rn.addr a)) [
      | inl hit ↦
          let q : conn ≡ c = ground (arith, lookup-insert vn.rn.addr a conn p.addr2conn) in
          (
            address,
            vn,
            subst (λ x. Memᴰ (x, address) ready) q here,
            node,
            (same_iff vn.rn.addr a).0 hit,
          )
      | inr miss ↦
          built.addr_ready a c (ground (arith, lookup-insert vn.rn.addr a conn p.addr2conn))
    ]

    add_ready-IsBuilt : IsBuilt ready (vn.key ∷ keys) (add_ready ring Conn conn vn p)
    unfolding add_ready
    add_ready-IsBuilt = record {
      ring_keys = ap (add vn.key) built.ring_keys;
      keys_conn = add_ready-keys_conn;
      conn_ready = add_ready-conn_ready;
      addr_ready = add_ready-addr_ready;
      entries_ready =
          All-insert (λ (e : Bytes × Conn). ReadyAt ready e.0 e.1) vn.key conn p.k2conn
            (address, vn, here, node, refl) built.entries_ready;
      no_keys = λ e. absurd (ground arith);
    }

  pub build_from-IsBuilt :
      (ready rest : Ready) (keys : List Bytes) (p p' : TdPicker ring Conn)
      → ((x : Conn × Address) → Memᴰ x rest → Memᴰ x ready)
      → IsBuilt ready keys p
      → build_from ring Conn rest p ≡ some p'
      → (keys' : List Bytes) × IsBuilt ready keys' p'
  unfolding build_from
  build_from-IsBuilt ready [] keys p p' sub built e =
      (keys, subst (IsBuilt ready keys) (ground arith) built)
  build_from-IsBuilt ready ((conn, address) ∷ rest) keys p p' sub built e =
      elim (Option-cases address.info) [
        | inl missing ↦ absurd (ground arith)
        | inr (vn, node) ↦
            build_from-IsBuilt ready rest (vn.key ∷ keys) (add_ready ring Conn conn vn p) p'
              (λ x m. sub x (Memᴰ.tail m))
              (add_ready-IsBuilt ready keys conn address vn p (sub (conn, address) (Memᴰ.head refl))
                node built)
              (ground arith)
      ]

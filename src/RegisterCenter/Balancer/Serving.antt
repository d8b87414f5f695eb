-- ===== src/RegisterCenter/Balancer/Serving.antt =====
-- When `Build` of Common/RegisterCenter/ServiceBalancer.go gives a picker, and what it serves.
use mathlib.Core.List.{Memᴰ}
use algogateway.RegisterCenter.Balancer.{
  TdPicker, new_picker, add_ready, build_from, build, picker, no_sub_conn,
}
use algogateway.RegisterCenter.Balancer.Ring.{HashRing}
use algogateway.RegisterCenter.Balancer.Building.{
  Ready, IsBuilt, build_from-IsBuilt, new_picker-IsBuilt,
}
use algogateway.Common.{
  Option-cases, lookup-insert, lookup-insert_self, insert-ne-nil, lookup, Bytes, ◌⊎◌, ◌≢◌, ◌≡◌, ◌∷◌,
  ◌∙◌, sym, some, refl, none, inr, inl, arith, ap, [], List,
}
use algogateway.RegisterCenter.Options.{VirtualNode, Address}
use mathlib.Core.Path.{subst}

module _ (ring : HashRing) (Conn : Type 0) where
  -- Every ready connection has a node.
  abbrev pub HasNodes : List (Conn × Address) → Type 0
  HasNodes [] = Unit
  HasNodes ((conn, address) ∷ ready) =
      ((vn : VirtualNode) × (address.info ≡ some vn)) × HasNodes ready

  add_ready-keeps :
      (conn : Conn) (vn : VirtualNode) (a : Bytes) (p : TdPicker ring Conn)
      → lookup a p.addr2conn ≢ none
      → lookup a (add_ready ring Conn conn vn p).addr2conn ≢ none
  unfolding add_ready
  add_ready-keeps conn vn a p h e =
      absurd (h (ground (arith, lookup-insert vn.rn.addr a conn p.addr2conn)))

  add_ready-serves :
      (conn : Conn) (vn : VirtualNode) (p : TdPicker ring Conn)
      → lookup vn.rn.addr (add_ready ring Conn conn vn p).addr2conn ≢ none
  unfolding add_ready
  add_ready-serves conn vn p e =
      absurd (ground (arith, lookup-insert_self vn.rn.addr conn p.addr2conn))

  add_ready-ne-nil :
      (conn : Conn) (vn : VirtualNode) (p : TdPicker ring Conn)
      → (add_ready ring Conn conn vn p).k2conn ≢ []
  unfolding add_ready
  add_ready-ne-nil conn vn p = insert-ne-nil vn.key conn p.k2conn

  build_from-keeps :
      (ready : Ready ring Conn) (a : Bytes) (p p' : TdPicker ring Conn)
      → build_from ring Conn ready p ≡ some p'
      → lookup a p.addr2conn ≢ none
      → lookup a p'.addr2conn ≢ none
  unfolding build_from
  build_from-keeps [] a p p' e h =
      let same_picker : p ≡ p' = ground arith in
      subst (λ (x : TdPicker ring Conn). lookup a x.addr2conn ≢ none) same_picker h
  build_from-keeps ((conn, address) ∷ ready) a p p' e h = elim (Option-cases address.info) [
    | inl missing ↦ absurd (ground arith)
    | inr (vn, node) ↦
        build_from-keeps ready a (add_ready ring Conn conn vn p) p' (ground arith)
          (add_ready-keeps conn vn a p h)
  ]

  build_from-serves :
      (ready : Ready ring Conn) (p p' : TdPicker ring Conn) (c : Conn) (address : Address)
      (vn : VirtualNode)
      → build_from ring Conn ready p ≡ some p'
      → Memᴰ (c, address) ready
      → address.info ≡ some vn
      → lookup vn.rn.addr p'.addr2conn ≢ none
  unfolding build_from
  build_from-serves [] p p' c address vn e m node = elim m [ ]
  build_from-serves ((conn, other) ∷ ready) p p' c address vn e (Memᴰ.head q) node =
      let same_info : other.info ≡ some vn = ap (λ (x : Conn × Address). x.1.info) (sym q) ∙ node in
      build_from-keeps ready vn.rn.addr (add_ready ring Conn conn vn p) p' (ground arith)
        (add_ready-serves conn vn p)
  build_from-serves ((conn, other) ∷ ready) p p' c address vn e (Memᴰ.tail m) node =
      elim (Option-cases other.info) [
        | inl missing ↦ absurd (ground arith)
        | inr (vn', node') ↦
            build_from-serves ready (add_ready ring Conn conn vn' p) p' c address vn (ground arith)
              m node
      ]

  build_from-total :
      (ready : Ready ring Conn) (p : TdPicker ring Conn)
      → HasNodes ready
      → p.k2conn ≢ []
      → (p' : TdPicker ring Conn) × (build_from ring Conn ready p ≡ some p') × (p'.k2conn ≢ [])
  unfolding build_from
  build_from-total [] p h ne = (p, refl, ne)
  build_from-total ((conn, address) ∷ ready) p ((vn, node), h) ne =
      let (p', e, ne') =
        build_from-total ready (add_ready ring Conn conn vn p) h (add_ready-ne-nil conn vn p) in
      (p', ground arith, ne')

  -- A picker is built for every choice of ready connections, none excepted, that all carry a node;
  -- without a ready connection gRPC's error picker stands in.
  pub build_total :
      (ready : Ready ring Conn)
      → HasNodes ready
      → ((ready ≡ []) × (build ring Conn ready ≡ no_sub_conn))
        ⊎ ((ready ≢ []) × ((p : TdPicker ring Conn) × (build ring Conn ready ≡ picker p)))
  unfolding build build_from
  build_total [] h = inl (refl, refl)
  build_total ((conn, address) ∷ ready) ((vn, node), h) =
      let (p', e, ne) =
        build_from-total ready (add_ready ring Conn conn vn (new_picker ring Conn)) h
          (add_ready-ne-nil conn vn (new_picker ring Conn)) in
      inr (cc, (p', ground arith))

  -- `Build` gave the picker that its loop made, and that picker has a connection.
  build_picker :
      (ready : Ready ring Conn) (p : TdPicker ring Conn)
      → build ring Conn ready ≡ picker p
      → (build_from ring Conn ready (new_picker ring Conn) ≡ some p) × (p.k2conn ≢ [])
  unfolding build
  build_picker ready p e = elim (Option-cases (build_from ring Conn ready (new_picker ring Conn))) [
    | inl nothing ↦ absurd (ground arith)
    | inr (q, made) ↦
        let same_picker : q ≡ p = ground arith in
        (made ∙ ap some same_picker, λ empty. absurd (ground arith))
  ]

  -- What a picker knows: the ring holds keys of ready connections alone, each connection is a ready
  -- one whose node has the key or the address under which it stands, and every ready address with a
  -- node is served.
  pub build-IsBuilt :
      (ready : Ready ring Conn) (p : TdPicker ring Conn)
      → build ring Conn ready ≡ picker p
      → ((keys : List Bytes) × IsBuilt ring Conn ready keys p)
        × (p.k2conn ≢ [])
        × ((c : Conn) (address : Address) (vn : VirtualNode)
            → Memᴰ (c, address) ready
            → address.info ≡ some vn
            → lookup vn.rn.addr p.addr2conn ≢ none)
  build-IsBuilt ready p e =
      let (made, ne) = build_picker ready p e in
      (
        build_from-IsBuilt ring Conn ready ready [] (new_picker ring Conn) p (λ x m. m)
            (new_picker-IsBuilt ring Conn ready) made,
        ne,
        λ c address vn m node.
            build_from-serves ready (new_picker ring Conn) p c address vn made m node,
      )

-- ===== src/GateWay/Http/Clients.antt =====
-- The address that `GetClientIP` of GateWay/HTTPMessage/Common.go finds.
use algogateway.GateWay.Interfaces.{HttpDeps}
use algogateway.GateWay.Texts.{split, trim_space}
use algogateway.GateWay.Http.Incoming.{HttpRequest, get_header, first_ip, remote_ip, get_client_ip}
use algogateway.Common.{
  text, Result-cases, All, Bytes, Option-cases, Bool-cases, ◌⊎◌, ◌≡◌, ◌∷◌, ◌∙◌, ◌++◌, true, sym,
  some, refl, ok, none, inr, inl, false, arith, ap, [], List,
}

module _ (deps : HttpDeps) where
  open deps use {is_ip, split_host}

  -- No part of a list is an address, and the first part that is one.
  pub NoneValid : List Bytes → Type 0
  NoneValid parts = All (λ part. is_ip (trim_space part) ≡ false) parts

  pub FirstValid : List Bytes → Bytes → Type 0
  FirstValid parts ip =
      (before : List Bytes) × (part : Bytes) × (after : List Bytes) × (parts
        ≡ before ++ part ∷ after)
      × NoneValid before
      × (trim_space part ≡ ip)
      × (is_ip ip ≡ true)

  first_ip-FirstValid :
      (parts : List Bytes) {ip : Bytes} → first_ip deps parts ≡ some ip → FirstValid parts ip
  unfolding first_ip FirstValid NoneValid
  first_ip-FirstValid [] h = absurd (ground arith)
  first_ip-FirstValid (part ∷ parts) {ip = ip} h = elim (Bool-cases (is_ip (trim_space part))) [
    | inl hit ↦
        let e : trim_space part ≡ ip = ground arith in
        ([], part, parts, refl, tt, e, ap is_ip (sym e) ∙ hit)
    | inr miss ↦
        let g : first_ip deps parts ≡ some ip = ground arith in
        let (before, part', after, e, none_valid, e', v) = first_ip-FirstValid parts g in
        (part ∷ before, part', after, ap (λ q. part ∷ q) e, (miss, none_valid), e', v)
  ]

  first_ip-NoneValid : (parts : List Bytes) → first_ip deps parts ≡ none → NoneValid parts
  unfolding first_ip NoneValid
  first_ip-NoneValid [] h = tt
  first_ip-NoneValid (part ∷ parts) h = elim (Bool-cases (is_ip (trim_space part))) [
    | inl hit ↦ absurd (ground arith)
    | inr miss ↦ (miss, first_ip-NoneValid parts (ground arith))
  ]

  remote_ip-eq :
      (addr : Bytes) {ip : Bytes}
      → remote_ip deps addr ≡ ok ip
      → (split_host addr ≡ ok ip) × (is_ip ip ≡ true)
  unfolding remote_ip
  remote_ip-eq addr {ip = ip} h = elim (Result-cases (split_host addr)) [
    | inl (e, q) ↦ absurd (ground arith)
    | inr (host, q) ↦ let e : host ≡ ip = ground arith in (q ∙ ap ok e, ground arith)
  ]

  -- Where an address of the client comes from.
  pub Source : HttpRequest → Bytes → Type 0
  Source r ip =
      (ip ≡ get_header r (text "X-Real-Ip"))
      ⊎ (is_ip (get_header r (text "X-Real-Ip")) ≡ false)
        × (FirstValid (split b',' (get_header r (text "X-Forwarded-For"))) ip
            ⊎ NoneValid (split b',' (get_header r (text "X-Forwarded-For")))
              × (split_host r.remote_addr ≡ ok ip))

  -- An address that is found is an IP address: that of `X-Real-IP` if this is one, else the first
  -- part of `X-Forwarded-For` that is one, else the host of the connection.
  pub get_client_ip-Source :
      (r : HttpRequest) {ip : Bytes}
      → get_client_ip deps r ≡ ok ip
      → (is_ip ip ≡ true) × Source r ip
  unfolding get_client_ip Source FirstValid
  get_client_ip-Source r {ip = ip} h = elim (Bool-cases (is_ip (get_header r (text "X-Real-Ip")))) [
    | inl hit ↦
        let e : get_header r (text "X-Real-Ip") ≡ ip = ground arith in
        (ap is_ip (sym e) ∙ hit, inl (sym e))
    | inr miss ↦
        elim (Option-cases (first_ip deps (split b',' (get_header r (text "X-Forwarded-For"))))) [
          | inl gone ↦
              let g : remote_ip deps r.remote_addr ≡ ok ip = ground arith in
              let (e, v) = remote_ip-eq r.remote_addr g in
              (v, inr (miss, inr (first_ip-NoneValid _ gone, e)))
          | inr (i, found) ↦
              let g : i ≡ ip = ground arith in
              let f = first_ip-FirstValid _ (found ∙ ap some g) in (f.6, inr (miss, inl f))
        ]
  ]

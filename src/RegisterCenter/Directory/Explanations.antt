-- ===== src/RegisterCenter/Directory/Explanations.antt =====
-- Changes of a center (Common/RegisterCenter/RegisterCenter.go) that a list of announcements
-- explains: the requests to the register center, and its notifications.
use algogateway.Common.{Dict, All, List, [], ◌∷◌, ◌++◌, some, ◌≡◌, refl, sym}
use mathlib.Core.Path.{subst}
use algogateway.Protos.Messages.{ServiceInfo, UnifiedRequest}
use algogateway.RegisterCenter.Options.{Context}
use algogateway.RegisterCenter.Client.{UnifiedClient}
use algogateway.RegisterCenter.Client.Interfaces.{Rpc}
use algogateway.RegisterCenter.Center.{
  RegisterCenter, online, check, on_notify, update_client, update_list,
}
use algogateway.RegisterCenter.Center.Interfaces.{Deps, on_network}
use algogateway.RegisterCenter.Directory.Announcements.{
  online_infos, check_infos, notify_infos, online-infos, check-infos, on_notify-infos,
}

-- A relation that holds of an update and its announcement, of changes that leave the clients alone,
-- and that can be chained.
pub record Explains (deps : Deps) (R : List ServiceInfo → RegisterCenter → RegisterCenter → Type 0)
    : Type 0 where
  pub nothing : (c c' : RegisterCenter) → c'.client_maps ≡ c.client_maps → R [] c c'
  pub chain :
      (xs ys : List ServiceInfo) (c c' c'' : RegisterCenter)
      → R xs c c'
      → R ys c' c''
      → R (xs ++ ys) c c''
  pub update :
      (net : Rpc) (info : ServiceInfo) (c : RegisterCenter)
      → R (info ∷ []) c (update_client (on_network deps net) (some info) c).0

module _ (deps : Deps) (R : List ServiceInfo → RegisterCenter → RegisterCenter → Type 0)
    (x : Explains deps R) (net : Rpc) where
  abbrev net_deps : Deps
  net_deps = on_network deps net

  pub update_list-explained :
      (infos : List ServiceInfo) (c : RegisterCenter) → R infos c (update_list net_deps infos c)
  unfolding update_list
  update_list-explained [] c = x.nothing c c refl
  update_list-explained (info ∷ infos) c =
      let c' = (update_client net_deps (some info) c).0 in
      x.chain (info ∷ []) infos c c' (update_list net_deps infos c') (x.update net info c)
        (update_list-explained infos c')

  -- A center that results from a list of updates.
  from_list :
      (infos : List ServiceInfo) (c c' : RegisterCenter)
      → c' ≡ update_list net_deps infos c
      → R infos c c'
  from_list infos c c' e = subst (R infos c) (sym e) (update_list-explained infos c)

  pub online-explained :
      (ctx : Context) (c : RegisterCenter)
      → R (online_infos net_deps ctx c) c (online net_deps ctx c).0
  online-explained ctx c = from_list (online_infos net_deps ctx c) c _ (online-infos net_deps ctx c)

  pub check-explained :
      (ctx : Context) (c : RegisterCenter)
      → R (check_infos net_deps ctx c) c (check net_deps ctx c).0
  check-explained ctx c = from_list (check_infos net_deps ctx c) c _ (check-infos net_deps ctx c)

  pub on_notify-explained :
      (req : UnifiedRequest) (c : RegisterCenter)
      → R (notify_infos net_deps req) c (on_notify net_deps req c).0
  on_notify-explained req c =
      from_list (notify_infos net_deps req) c _ (on_notify-infos net_deps req c)

-- A property of the clients that each update keeps whose announcement meets `Fits`.
abbrev pub Keeps :
    (ServiceInfo → Type 0)
    → (Dict UnifiedClient → Type 0)
    → List ServiceInfo
    → RegisterCenter
    → RegisterCenter
    → Type 0
Keeps Fits P infos c c' = All Fits infos → P c.client_maps → P c'.client_maps

All-split :
    (P : ServiceInfo → Type 0) (xs ys : List ServiceInfo) → All P (xs ++ ys) → All P xs × All P ys
All-split P [] ys h = (tt, h)
All-split P (x ∷ xs) ys (p, h) = let (q, r) = All-split P xs ys h in ((p, q), r)

pub Keeps-Explains :
    (deps : Deps) (Fits : ServiceInfo → Type 0) (P : Dict UnifiedClient → Type 0)
    → ((net : Rpc) (info : ServiceInfo) (c : RegisterCenter)
        → Fits info
        → P c.client_maps
        → P (update_client (on_network deps net) (some info) c).0.client_maps)
    → Explains deps (Keeps Fits P)
Keeps-Explains deps Fits P keep = record {
  nothing = λ c c' e fits h. subst P (sym e) h;
  chain = λ xs ys c c' c'' f g fits h.
      let (fits_xs, fits_ys) = All-split Fits xs ys fits in g fits_ys (f fits_xs h);
  update = λ net info c (fit, _) h. keep net info c fit h;
}

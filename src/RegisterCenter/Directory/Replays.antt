-- ===== src/RegisterCenter/Directory/Replays.antt =====
-- Refinement of the directory: a change of the center stands for a list of announcements. The
-- requests of Common/RegisterCenter/RegisterCenter.go stand for what their answers announce.
use algogateway.Common.{List, [], ◌∷◌, ◌++◌, some, ◌≡◌, refl, sym, ◌∙◌}
use mathlib.Core.Path.{fun_ext}
use algogateway.Protos.Codec.{EnumNames}
use algogateway.Protos.Messages.{ServiceInfo}
use algogateway.RegisterCenter.Client.Interfaces.{Semver}
use algogateway.RegisterCenter.Center.{RegisterCenter, update_client, update_list}
use algogateway.RegisterCenter.Center.Interfaces.{Deps, on_network}
use algogateway.RegisterCenter.Directory.{Directory, Interest, announce_all, directory, interest_of}
use algogateway.RegisterCenter.Directory.Explanations.{Explains, update_list-explained}
use algogateway.RegisterCenter.Directory.Steps.{update_client-directory, update_client-interest}

module _ (enums : EnumNames) (semver : Semver) where
  -- The second center's view comes from the first one's by these announcements.
  abbrev pub Refines : List ServiceInfo → RegisterCenter → RegisterCenter → Type 0
  Refines infos c c' =
      (interest_of c' ≡ interest_of c)
      × (directory c' ≡ announce_all enums semver (interest_of c) infos (directory c))

  pub announce_all-append :
      (interest : Interest) (xs ys : List ServiceInfo) (dir : Directory)
      → announce_all enums semver interest (xs ++ ys) dir
        ≡ announce_all enums semver interest ys (announce_all enums semver interest xs dir)
  unfolding announce_all
  announce_all-append interest [] ys dir = refl
  announce_all-append interest (x ∷ xs) ys dir = announce_all-append interest xs ys _

  -- The view does not show the center's own service info and its jobs.
  pub same_clients-Refines :
      (c c' : RegisterCenter) → c'.client_maps ≡ c.client_maps → Refines [] c c'
  unfolding announce_all directory interest_of
  same_clients-Refines c c' e = rw e (refl, refl)

  pub Refines-trans :
      (xs ys : List ServiceInfo) (c c' c'' : RegisterCenter)
      → Refines xs c c'
      → Refines ys c' c''
      → Refines (xs ++ ys) c c''
  Refines-trans xs ys c c' c'' (i, d) (i', d') = (
    i' ∙ i,
    d'
        ∙ (λ t. announce_all enums semver (i t) ys (d t))
        ∙ sym (announce_all-append (interest_of c) xs ys (directory c)),
  )

module _ (deps : Deps) where
  open deps use {enums, semver}

  update_client-Refines :
      (info : ServiceInfo) (c : RegisterCenter)
      → Refines enums semver (info ∷ []) c (update_client deps (some info) c).0
  unfolding announce_all
  update_client-Refines info c = (
    fun_ext (update_client-interest deps info c),
    fun_ext λ name. fun_ext λ addr. update_client-directory deps info c name addr,
  )

module _ (deps : Deps) where
  open deps use {enums, semver}

  -- An update is explained by its announcement.
  pub Refines-Explains : Explains deps (Refines enums semver)
  Refines-Explains = record {
    nothing = same_clients-Refines enums semver;
    chain = Refines-trans enums semver;
    update = λ net info c. update_client-Refines (on_network deps net) info c;
  }

  pub update_list-Refines :
      (infos : List ServiceInfo) (c : RegisterCenter)
      → Refines enums semver infos c (update_list deps infos c)
  update_list-Refines = update_list-explained deps (Refines enums semver) Refines-Explains deps.rpc

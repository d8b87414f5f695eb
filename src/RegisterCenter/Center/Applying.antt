-- ===== src/RegisterCenter/Center/Applying.antt =====
-- What the two loops over a watch list (`online` and `check` of Common/RegisterCenter/RegisterCenter.go)
-- come to: every service info of every watch is given to `updateClient`, one after the other.
use algogateway.Common.{List, [], ◌∷◌, some, sym}
use mathlib.Core.Path.{subst}
use algogateway.Protos.Messages.{ServiceInfo, WatchServiceInfo}
use algogateway.RegisterCenter.Center.{
  RegisterCenter, update_client, update_list, update_watch_list,
}
use algogateway.RegisterCenter.Center.Interfaces.{Deps}
use algogateway.RegisterCenter.Directory.Announcements.{watch_infos, update_watch_list-flat}
use algogateway.RegisterCenter.Directory.Replays.{Refines, update_list-Refines}

module _ (deps : Deps) where
  -- The second center comes from the first one by an update for each service info, in order.
  pub data Applies : List ServiceInfo → RegisterCenter → RegisterCenter → Type 0 where
    nothing : (c : RegisterCenter) → Applies [] c c
    next :
        (info : ServiceInfo) (infos : List ServiceInfo) (c c' : RegisterCenter)
        → Applies infos (update_client deps (some info) c).0 c'
        → Applies (info ∷ infos) c c'

  update_list-Applies :
      (infos : List ServiceInfo) (c : RegisterCenter) → Applies infos c (update_list deps infos c)
  unfolding update_list
  update_list-Applies [] c = nothing c
  update_list-Applies (info ∷ infos) c =
      next info infos c _ (update_list-Applies infos (update_client deps (some info) c).0)

  -- All of a reply is applied in order, and so the directory changes as the reply announces.
  abbrev pub AppliesReply : List WatchServiceInfo → RegisterCenter → RegisterCenter → Type 0
  AppliesReply watches c c' =
      Applies (watch_infos watches) c c' × Refines deps.enums deps.semver (watch_infos watches) c c'

  pub update_watch_list-AppliesReply :
      (watches : List WatchServiceInfo) (c : RegisterCenter)
      → AppliesReply watches c (update_watch_list deps watches c)
  update_watch_list-AppliesReply watches c =
      let flat = update_watch_list-flat deps watches c in
      subst (AppliesReply watches c) (sym flat) (
        update_list-Applies (watch_infos watches) c,
        update_list-Refines deps (watch_infos watches) c,
      )

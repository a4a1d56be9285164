-- ===== src/Manager/StopAll.antt =====
-- `StopAll` of internal/listener/manager.go.
pub mod Stopped
use reloader.Prelude.{
  List, [], ◌∷◌, ◌++◌, map, Option, none, some, if◌then◌else◌, Map, string_eq, lookup, insert,
  String,
}
use reloader.Api.{NotificationSource}
use reloader.Manager.{NamespacedName, name_eq, Host, Scope, Manager, stop_listener, keys, scope_of}

module _ (host : Host) where
  -- The loop of `StopAll` over one Config's listeners, with the errors of those that fail to stop.
  stop_own : List String → Scope → List NotificationSource → Scope × List NotificationSource
  stop_own [] st errs = (st, errs)
  stop_own (key ∷ rest) st errs =
      stop_own rest (elim (lookup key st.own) [ none ↦ st | some l ↦ stop_listener key l st ])
        (elim (lookup key st.own) [
          | none ↦ errs
          | some l ↦ if host.stop_fails l.source then errs ++ l.source ∷ [] else errs
        ])

  -- The loop over the Configs; their maps stay, empty.
  stop_configs :
      List NamespacedName → Manager → List NotificationSource → Manager × List NotificationSource
  stop_configs [] lm errs = (lm, errs)
  stop_configs (manifest ∷ rest) lm errs =
      let st = scope_of host manifest lm in
      let (st', errs') = stop_own (host.order (keys st.own)) st errs in
      stop_configs rest
        (record {
          listeners = insert manifest st'.own lm.listeners;
          server = st'.server;
          stopped = st'.stopped;
          next_id = st'.next_id;
        })
        errs'

  -- `StopAll`: the manager, and the errors that are joined.
  unfoldable pub stop_all : Manager → Manager × List NotificationSource
  unfolding stop_configs stop_own scope_of
  stop_all lm = stop_configs (map (λ e. e.0) lm.listeners) lm []

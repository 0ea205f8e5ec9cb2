-- ===== src/Gateway/Safety/Rules.antt =====
-- The rules for the steps of a handler.
use contextforge_data_plane.Prelude.{
  Str, ◌≡◌, refl, sym, subst, inl, inr, Bool-cases, Option, none, some, Option-cases, Result, ok,
  err, ok-inj,
}
use contextforge_data_plane.Prelude.Map.{Map}
use contextforge_data_plane.Json.{Value}
use contextforge_data_plane.UserStore.{BackendMcpGateway, ServiceRoute, VirtualHost}
use contextforge_data_plane.Gateway.{
  ErrorData, RequestContext, Call, before_hook, connecting, opened, refused, sent, not_sent, closed,
  after_hook, Run, done, continue, ◌>>=◌, PreHookResult, PluginRuntime, McpService, unchanged,
}
use contextforge_data_plane.Gateway.Handlers.{
  kept, pre_hook, pre_read, post_hook, connection_headers, connect_backend_for_request, exchange,
  tool_exchange, forwarded, headers_of,
}
use contextforge_data_plane.Gateway.Session.{
  Phase, fresh, hooked, waiting, open_idle, open_used, ended, finished, dropped, step, IsSettled,
}
use contextforge_data_plane.Gateway.Session.Steps.{
  Runs, done-Runs, bind-Runs, event-Runs, emit-Runs,
}
use contextforge_data_plane.Gateway.Safety.{
  IsReady, start, LetsOn, LetsRead, IsAnswer, IsRoutedTo, IsRouted,
}

connecting-step :
    (q : Phase)
    → IsReady q
    → (b : BackendMcpGateway) (h : Map Str) → step q (connecting b h) ≡ some waiting
unfolding step
connecting-step q (inl r) b h = rw r refl
connecting-step q (inr r) b h = rw r refl

module _ {S : Type 0} where
  kept-eq-ok :
      (service : McpService S) (r : Result ErrorData S) (state : Option S)
      → kept service r ≡ ok state
      → (s : S) × (r ≡ ok s) × (state ≡ some s)
  kept-eq-ok service (ok s) state h = (s, refl, sym (ok-inj h))
  kept-eq-ok service (err e) state h = absurd cc

module _ {S : Type 0} (service : McpService S) (cx : RequestContext)
    (Named : VirtualHost → ServiceRoute → Type 0)
    -- An error asks only that no connection is open.
    (Post : Phase → Result ErrorData Value → Type 0)
    (settles : (p : Phase) (e : ErrorData) → IsSettled p → Post p (err e)) where
  pub continue-Routes :
      {A : Type 0} {p : Phase} (r : Result ErrorData A) (f : A → Run Value)
      → IsSettled p
      → ((a : A) → r ≡ ok a → Runs (IsRouted service cx Named) p (f a) Post)
      → Runs (IsRouted service cx Named) p (continue r f) Post
  continue-Routes (ok a) f h g = g a refl
  continue-Routes (err e) f h g = done-Runs (settles _ e h)

  pub pre_hook-Routes :
      (before : PluginRuntime S → Result ErrorData (PreHookResult S))
      (f : PreHookResult S → Run Value)
      → ((q : Phase)
          → IsReady q
          → (pre : PreHookResult S) → LetsOn service.plugin_runtime before pre
          → Runs (IsRouted service cx Named) q (f pre) Post)
      → Runs
          (IsRouted service cx Named)
          (start service.plugin_runtime)
          (pre_hook service before >>= f)
          Post
  unfolding step
  pre_hook-Routes before f g = elim (Option-cases service.plugin_runtime) [
    | inl e ↦ rw e (
        bind-Runs _ f (
          done-Runs (
            g fresh (inl refl) _ (
              subst (λ o. LetsOn o before (record { arguments = unchanged; state = none })) (sym e)
                refl))))
    | inr (runtime, e) ↦ rw e (
        bind-Runs _ f (
          emit-Runs {q = hooked} before_hook _ tt refl (
            done-Runs (
              continue-Routes (before runtime) f tt
                (λ pre h. g hooked (inr refl) pre (subst (λ o. LetsOn o before pre) (sym e) h))))))
  ]

  pub pre_read-Routes :
      (route : ServiceRoute) (f : Option S → Run Value)
      → ((q : Phase)
          → IsReady q
          → (state : Option S) → LetsRead service.plugin_runtime route.upstream_name state
          → Runs (IsRouted service cx Named) q (f state) Post)
      → Runs
          (IsRouted service cx Named)
          (start service.plugin_runtime)
          (pre_read service route >>= f)
          Post
  unfolding step
  pre_read-Routes route f g = elim (Option-cases service.plugin_runtime) [
    | inl e ↦ rw e (
        bind-Runs _ f (
          done-Runs
            (g fresh (inl refl) _ (subst (λ o. LetsRead o route.upstream_name none) (sym e) refl))))
    | inr (runtime, e) ↦ rw e (
        bind-Runs _ f (
          emit-Runs {q = hooked} before_hook _ tt refl (
            done-Runs (
              continue-Routes _ f tt (λ state h. g hooked (inr refl) state (
                subst (λ o. LetsRead o route.upstream_name state) (sym e)
                  (kept-eq-ok service (runtime.before_read_resource route.upstream_name) state
                    h)))))))
  ]

  pub connect-Routes :
      (q : Phase) (backend : BackendMcpGateway) (f : Unit {0} → Run Value)
      → IsReady q
      → (route : ServiceRoute) × IsRoutedTo service cx Named backend route
      → Runs (IsRouted service cx Named) open_idle (f tt) Post
      → Runs
          (IsRouted service cx Named)
          q
          (connect_backend_for_request service backend cx >>= f)
          Post
  unfolding connect_backend_for_request step
  connect-Routes q backend f r routed g = bind-Runs _ f (
      emit-Runs {q = waiting} (connecting backend _) _ routed (connecting-step q r backend _)
        (elim (Bool-cases (
          service.upstream.serve backend.url (connection_headers service backend (headers_of cx))
            backend.mcp_protocol_version)) [
              | inl e ↦ rw e (event-Runs {q = open_idle} opened tt refl g)
              | inr e ↦ rw e (
                  emit-Runs {q = dropped} refused _ tt refl
                    (done-Runs (done-Runs (settles dropped _ tt))))
            ]))

  pub exchange-Routes :
      (backend : BackendMcpGateway) (call : Call) (f : Value → Run Value)
      → IsRouted service cx Named (sent backend call)
      → ((v : Value)
          → forwarded (service.upstream.reply backend call) ≡ ok v
          → Runs (IsRouted service cx Named) ended (f v) Post)
      → Runs (IsRouted service cx Named) open_idle (exchange service backend call >>= f) Post
  unfolding exchange step
  exchange-Routes backend call f routed g = bind-Runs _ f (
      emit-Runs {q = open_used} (sent backend call) _ routed refl (
        emit-Runs {q = ended} closed _ tt refl
          (done-Runs (continue-Routes (forwarded (service.upstream.reply backend call)) f tt g))))

  pub tool_exchange-Routes :
      (backend : BackendMcpGateway) (call : Call) (f : Value → Run Value)
      → IsRouted service cx Named (sent backend call)
      → ((v : Value)
          → forwarded (service.upstream.reply backend call) ≡ ok v
          → Runs (IsRouted service cx Named) ended (f v) Post)
      → Runs (IsRouted service cx Named) open_idle (tool_exchange service backend call >>= f) Post
  unfolding tool_exchange step
  tool_exchange-Routes backend call f routed g =
      elim (Option-cases (service.upstream.start backend call)) [
        | inl e ↦ rw (tool_exchange, e) (exchange-Routes backend call f routed g)
        | inr (x, e) ↦
            rw (tool_exchange, e)
              (bind-Runs _ f (
                emit-Runs {q = dropped} not_sent _ tt refl
                  (done-Runs (done-Runs (settles dropped _ tt)))))
      ]

  last-Routes :
      (p : Phase) (r : Result ErrorData Value)
      → IsSettled p
      → ((v : Value) → r ≡ ok v → Post p (ok v))
      → Runs (IsRouted service cx Named) p (done r) Post
  last-Routes p (ok v) h g = done-Runs (g v refl)
  last-Routes p (err e) h g = done-Runs (settles p e h)

  pub exchange_last-Routes :
      (backend : BackendMcpGateway) (call : Call)
      → IsRouted service cx Named (sent backend call)
      → ((v : Value) → Post ended (ok v))
      → Runs (IsRouted service cx Named) open_idle (exchange service backend call) Post
  unfolding exchange step
  exchange_last-Routes backend call routed g =
      emit-Runs {q = open_used} (sent backend call) _ routed refl (
        emit-Runs {q = ended} closed _ tt refl
          (last-Routes ended (forwarded (service.upstream.reply backend call)) tt (λ v h. g v)))

  pub post_hook-Routes :
      (after : PluginRuntime S → S → Value → Result ErrorData Value) (state : Option S) (v : Value)
      → ((p : Phase) (w : Value)
          → IsAnswer service.plugin_runtime after state v p w
          → Post p (ok w))
      → Runs (IsRouted service cx Named) ended (post_hook service after state v) Post
  unfolding step
  post_hook-Routes after state v g = elim (Option-cases service.plugin_runtime) [
    | inl e ↦
        rw e (
          done-Runs
            (g ended v (subst (λ o. IsAnswer o after state v ended v) (sym e) (refl, refl))))
    | inr (runtime, e) ↦ elim (Option-cases state) [
      | inl f ↦
          rw (e, f)
            (done-Runs (
              g ended v (
                subst (λ o. IsAnswer o after state v ended v) (sym e)
                  (subst (λ o. IsAnswer (some runtime) after o v ended v) (sym f) (refl, refl)))))
      | inr (s, f) ↦
          rw (e, f)
            (emit-Runs {q = finished} after_hook _ tt refl (
              last-Routes finished (after runtime s v) tt (λ w h. g finished w (
                subst (λ o. IsAnswer o after state v finished w) (sym e)
                  (subst (λ o. IsAnswer (some runtime) after o v finished w) (sym f) (h, refl))))))
    ]
  ]

-- ===== src/Gateway/Safety/Handled.antt =====
-- What the four handlers that reach a backend do.
use contextforge_data_plane.Prelude.{Str, ◌≡◌, refl, sym, ◌∙◌, subst, some, ok, ok_or}
use contextforge_data_plane.Prelude.Maybe.{some-inj}
use contextforge_data_plane.UserStore.{ServiceRoute, VirtualHost}
use contextforge_data_plane.Gateway.{RequestContext, NamedRequest, Reference, McpService}
use contextforge_data_plane.Gateway.Handlers.{
  validate_stateless, check_headers, handle_call_tool, handle_get_prompt, handle_read_resource,
  rewrite_route, completion_route, rewritten_by,
}
use contextforge_data_plane.Gateway.Session.Steps.{Runs, check-Runs}
use contextforge_data_plane.Gateway.Safety.{
  target, settled, IsRouted, IsRoutedTo, ok_or-some, Answered, EndsAs, start, start-IsSettled,
}
use contextforge_data_plane.Gateway.Safety.Rules.{
  pre_hook-Routes, pre_read-Routes, connect-Routes, exchange-Routes, tool_exchange-Routes,
  post_hook-Routes,
}
use contextforge_data_plane.Gateway.Safety.Asks.{AsksTool, AsksPrompt, AsksResource, Selects}

abbrev pub SelectsCompletion : Reference → VirtualHost → ServiceRoute → Type 0
SelectsCompletion reference host route = completion_route host reference ≡ some route

module _ {S : Type 0} (service : McpService S) where
  -- What `call_tool` does, with S standing for the plugins' state. With plugins, the hook before the
  -- call comes before any other event. It connects only when that hook lets the call on and the
  -- parameter headers pass their check, and only to a backend of the caller's virtual host, the one that
  -- the route of the requested tool names; it asks the backend for the upstream name of that route, and
  -- closes the connection or drops it when the call cannot be sent. It returns a result only after the
  -- close, and the result is what the hook after the call, the last event, makes of the backend's reply
  -- to the call as the hook before it edited the arguments; without a state from that hook it is the
  -- reply itself, and no hook follows.
  pub handle_call_tool-Safe :
      (request : NamedRequest) (cx : RequestContext)
      → Runs
          (IsRouted service cx (Selects service (AsksTool service request cx)))
          (start service.plugin_runtime)
          (handle_call_tool service request cx)
          (EndsAs (Answered service cx (AsksTool service request cx) (λ p. p.after_tool_call)))
  unfolding handle_call_tool
  handle_call_tool-Safe request cx =
      let Named = Selects service (AsksTool service request cx) in
      let Post =
        EndsAs (Answered service cx (AsksTool service request cx) (λ p. p.after_tool_call)) in
      let idle = start-IsSettled service.plugin_runtime in
      check-Runs (validate_stateless cx) _
        (λ (host, claims) e.
          check-Runs (ok_or _ _) _
            (λ route e2.
              check-Runs (ok_or _ _) _
                (λ backend e3.
                  check-Runs (check_headers service request route.upstream_name backend cx) _
                    (λ _ e4.
                      let b = ok_or-some _ _ backend e3 in
                      pre_hook-Routes service cx Named Post (λ p e h. h) _ _
                        (λ q r pre lets.
                          let asks : AsksTool service request cx host route _ pre.state = (
                            ok_or-some _ _ route e2,
                            (λ other f.
                                subst
                                  (λ x.
                                    check_headers service request route.upstream_name x cx ≡ ok tt)
                                  (some-inj (sym b ∙ f)) e4),
                            (pre, lets, refl, refl),
                          ) in
                          let routed : IsRoutedTo service cx Named backend route =
                            (host, claims, e, (_, pre.state, asks), b) in
                          connect-Routes service cx Named Post (λ p e h. h) q backend _ r
                            (route, routed)
                            (tool_exchange-Routes service cx Named Post (λ p e h. h) backend _ _
                              (route, routed, refl)
                              (λ v replied.
                                post_hook-Routes service cx Named Post (λ p e h. h)
                                  (λ p. p.after_tool_call) _ v
                                  (λ p w answer. (
                                    host, claims, route, backend, _, pre.state, v, e, asks, b,
                                    replied, answer,
                                  ))))))
                    (λ _. idle))
                (λ _. idle))
            (λ _. idle))
        (λ _. idle)

  -- What `get_prompt` does, with S standing for the plugins' state. With plugins, the hook before the
  -- call comes before any other event. It connects only when that hook lets the call on, and only to a
  -- backend of the caller's virtual host, the one that the route of the requested prompt names; it asks
  -- the backend for the upstream name of that route, and closes the connection. It returns a result only
  -- after the close, and the result is what the hook after the call, the last event, makes of the
  -- backend's reply to the call as the hook before it edited the arguments; without a state from that
  -- hook it is the reply itself, and no hook follows.
  pub handle_get_prompt-Safe :
      (request : NamedRequest) (cx : RequestContext)
      → Runs
          (IsRouted service cx (Selects service (AsksPrompt service request)))
          (start service.plugin_runtime)
          (handle_get_prompt service request cx)
          (EndsAs (Answered service cx (AsksPrompt service request) (λ p. p.after_get_prompt)))
  unfolding handle_get_prompt
  handle_get_prompt-Safe request cx =
      let Named = Selects service (AsksPrompt service request) in
      let Post =
        EndsAs (Answered service cx (AsksPrompt service request) (λ p. p.after_get_prompt)) in
      let idle = start-IsSettled service.plugin_runtime in
      check-Runs (validate_stateless cx) _
        (λ (host, claims) e.
          check-Runs (ok_or _ _) _
            (λ route e2.
              check-Runs (ok_or _ _) _
                (λ backend e3.
                  let b = ok_or-some _ _ backend e3 in
                  pre_hook-Routes service cx Named Post (λ p e h. h) _ _
                    (λ q r pre lets.
                      let asks : AsksPrompt service request host route _ pre.state =
                        (ok_or-some _ _ route e2, (pre, lets, refl, refl)) in
                      let routed : IsRoutedTo service cx Named backend route =
                        (host, claims, e, (_, pre.state, asks), b) in
                      connect-Routes service cx Named Post (λ p e h. h) q backend _ r
                        (route, routed)
                        (exchange-Routes service cx Named Post (λ p e h. h) backend _ _
                          (route, routed, refl)
                          (λ v replied.
                            post_hook-Routes service cx Named Post (λ p e h. h)
                              (λ p. p.after_get_prompt) _ v
                              (λ p w answer. (
                                host, claims, route, backend, _, pre.state, v, e, asks, b, replied,
                                answer,
                              ))))))
                (λ _. idle))
            (λ _. idle))
        (λ _. idle)

  -- What `read_resource` does, with S standing for the plugins' state. With plugins, the hook before the
  -- read comes before any other event. It connects only when that hook lets the read on, and only to a
  -- backend of the caller's virtual host, the one of the route of the requested URI or of the route that
  -- the URI which the hook put in its place selects; it asks the backend for the upstream name of that
  -- route, and closes the connection. It returns a result only after the close: with plugins, what the
  -- hook after the read, the last event, makes of the backend's reply, and without them the reply
  -- itself.
  pub handle_read_resource-Safe :
      (uri : Str) (cx : RequestContext)
      → Runs
          (IsRouted service cx (Selects service (AsksResource service uri)))
          (start service.plugin_runtime)
          (handle_read_resource service uri cx)
          (EndsAs (Answered service cx (AsksResource service uri) (λ p. p.after_read_resource)))
  unfolding handle_read_resource
  handle_read_resource-Safe uri cx =
      let Named = Selects service (AsksResource service uri) in
      let Post =
        EndsAs (Answered service cx (AsksResource service uri) (λ p. p.after_read_resource)) in
      let idle = start-IsSettled service.plugin_runtime in
      check-Runs (validate_stateless cx) _
        (λ (host, claims) e.
          check-Runs (ok_or _ _) _
            (λ route e2.
              pre_read-Routes service cx Named Post (λ p e h. h) route _
                (λ q r state lets.
                  check-Runs (rewrite_route host route (rewritten_by service state)) _
                    (λ target e4.
                      check-Runs (ok_or _ _) _
                        (λ backend e3.
                          let b = ok_or-some _ _ backend e3 in
                          let asks : AsksResource service uri host target _ state =
                            (route, ok_or-some _ _ route e2, lets, e4, refl) in
                          let routed : IsRoutedTo service cx Named backend target =
                            (host, claims, e, (_, state, asks), b) in
                          connect-Routes service cx Named Post (λ p e h. h) q backend _ r
                            (target, routed)
                            (exchange-Routes service cx Named Post (λ p e h. h) backend _ _
                              (target, routed, refl)
                              (λ v replied.
                                post_hook-Routes service cx Named Post (λ p e h. h)
                                  (λ p. p.after_read_resource) _ v
                                  (λ p w answer. (
                                    host, claims, target, backend, _, state, v, e, asks, b, replied,
                                    answer,
                                  )))))
                        (λ _. settled q r))
                    (λ _. settled q r)))
            (λ _. idle))
        (λ _. idle)

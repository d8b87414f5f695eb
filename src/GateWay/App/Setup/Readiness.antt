-- ===== src/GateWay/App/Setup/Readiness.antt =====
-- What `Init` of GateWay/Application.go has made when it succeeds.
use algogateway.RegisterCenter.Center.Interfaces.{Deps, ping_job, check_job}
use algogateway.RegisterCenter.Center.{RegisterCenter}
use algogateway.RegisterCenter.Center.Init.{init}
use algogateway.RegisterCenter.Center.Setup.{init-watches}
use algogateway.RegisterCenter.Center.Routing.{watches, IsWellNamed}
use algogateway.GateWay.Http.Handlers.{HttpMessage, init_http, init_download, base_routes}
use algogateway.GateWay.App.Config.{Config, Files, init_config, new_config}
use algogateway.GateWay.App.Grpc.{GrpcServer, init_grpc}
use algogateway.GateWay.App.Setup.{
  Application, Arguments, own_service_info, init_receiver, init_center, init_application,
  new_register_center,
}
use algogateway.Protos.Enums.{
  register_center, service_algo_center, service_algo_gate_way, status_online,
}
use algogateway.Common.{
  text, ◌++◌, same, ℤ, ◌||◌, ◌∙◌, sym, length, Bool-cases, ◌==◌, ap, List, Option-cases, refl, none,
  inr, inl, arith, Option, Error, Bytes, ◌≢◌, ◌≡◌, ◌∷◌, true, some, false, [],
}
use algogateway.GateWay.Fields.{is_empty}
use algogateway.Protos.Messages.{ServiceInfo}
use algogateway.Protos.Names.{service_type_string}

init_receiver_done :
    (addr : Bytes) (app : Application)
    → (init_receiver addr app).1 ≡ true
    → (center : RegisterCenter) × (app.reg_center ≡ some center)
      × ((init_receiver addr app).0 ≡ record app {
        http_receiver =
            some
              (record { mux = init_download base_routes; host = addr; reg_center = some center });
      })
unfolding init_receiver init_http
init_receiver_done addr app h = elim (Option-cases app.reg_center) [
  | inl e ↦ absurd (ground arith)
  | inr (center, e) ↦ (center, e, rw (e, init_http) refl)
]

not-empty : (s : Bytes) → s ≡ [] → is_empty s ≡ false → ⊥
not-empty s e h = ground (arith, ap is_empty e)

length-nil : {A : Type 0} (xs : List A) → xs ≡ [] → (length xs == 0) ≡ false → ⊥
length-nil xs e h = ground (arith, ap length e)

module _ (deps : Deps) (files : Files) (hostname : Bytes) where
  abbrev name_of : ℤ → Bytes
  name_of service_type = service_type_string deps.enums service_type

  or_none :
      (a b name : Bytes) → (same a name || (same b name || false)) ≡ (same a name || same b name)
  or_none a b name = ground arith

  -- An application that is ready to start: a center that is set up for the gateway's own address,
  -- and an HTTP side on that center.
  pub record IsReady (args : Arguments) (app : Application) : Type 0 where
    pub has_ip : args.ip ≢ []
    pub has_port : args.port ≢ []
    pub conf : Config
    pub loaded : init_config files args.config_path new_config ≡ (conf, true)
    pub has_addrs : conf.g_config.register_center_addr ≢ []
    pub center : RegisterCenter
    pub has_center : app.reg_center ≡ some center
    pub own_info :
        center.service_info ≡ own_service_info hostname args conf.g_config.service_group_tab
    pub own_type : center.service_info.service_type ≡ service_algo_gate_way
    pub own_addr : center.service_info.addr ≡ args.ip ++ text ":" ++ args.port
    pub own_status : center.service_info.status ≡ status_online
    pub http_host :
        app.http_receiver
        ≡ some (record {
          mux = init_download base_routes;
          host = args.ip ++ text ":" ++ args.port;
          reg_center = some center;
        })
    pub well_named : IsWellNamed deps.enums center.client_maps
    pub held :
        (name : Bytes)
        → watches deps name center
          ≡ (same (name_of register_center) name || same (name_of service_algo_center) name)
    pub jobs : center.crontab ≡ record { jobs = ping_job ∷ check_job ∷ []; running = false }
    pub http : HttpMessage
    pub has_http : app.http_receiver ≡ some http
    pub serves_center : http.reg_center ≡ some center
    pub grpc : GrpcServer
    pub has_grpc : app.grpc_receiver ≡ some (record { grpc_server = some grpc })

  init_center_done :
      (args : Arguments) (conf : Config) (app : Application)
      → (init_center deps files hostname args conf app).1 ≡ true
      → let info = own_service_info hostname args conf.g_config.service_group_tab in
        let made = init deps info conf.g_config.register_center_addr (new_register_center info) in
        (conf.g_config.register_center_addr ≢ [])
        × (made.1 ≡ none)
        × (init_center deps files hostname args conf app
            ≡ init_receiver info.addr (record app { reg_center = some made.0 }))
  unfolding init_center
  init_center_done args conf app h =
      let info = own_service_info hostname args conf.g_config.service_group_tab in
      elim (Bool-cases (length conf.g_config.register_center_addr == 0)) [
        | inl e ↦ absurd (ground arith)
        | inr e ↦
            elim (Option-cases
              (init deps info conf.g_config.register_center_addr (new_register_center info)).1) [
                | inr (x, f) ↦ absurd (ground arith)
                | inl f ↦ (
                  λ q. absurd (length-nil conf.g_config.register_center_addr q e),
                  f,
                  rw (e, f, init_center) refl,
                )
              ]
      ]

  -- The application before its center is set up, and its configuration.
  abbrev pub config_of : Arguments → Config
  config_of args = (init_config files args.config_path new_config).0

  abbrev prepared : Arguments → Application → Application
  prepared args app = record app {
    local_ip = args.ip;
    listen_port = args.port;
    conf = some (config_of args);
    grpc_receiver = some (init_grpc (record { grpc_server = none })).0;
  }

  init_application_done :
      (args : Arguments) (app : Application)
      → (init_application deps files hostname args app).1 ≡ true
      → (is_empty args.ip ≡ false)
        × (is_empty args.port ≡ false)
        × ((init_config files args.config_path new_config).1 ≡ true)
        × (init_application deps files hostname args app
            ≡ init_center deps files hostname args (config_of args) (prepared args app))
  unfolding init_application init_grpc
  init_application_done args app h = elim (Bool-cases (is_empty args.ip)) [
    | inl e ↦ absurd (ground arith)
    | inr e ↦ elim (Bool-cases (is_empty args.port)) [
      | inl f ↦ absurd (ground arith)
      | inr f ↦ elim (Bool-cases (init_config files args.config_path new_config).1) [
        | inl g ↦ (e, f, g, rw (e, f, g, init_application) refl)
        | inr g ↦ absurd (ground arith)
      ]
    ]
  ]

  -- The service info of the gateway and the center that `Init` makes for it.
  abbrev pub gateway_info : Arguments → ServiceInfo
  gateway_info args = own_service_info hostname args (config_of args).g_config.service_group_tab

  abbrev pub made_center : Arguments → RegisterCenter × Option Error
  made_center args =
      init deps (gateway_info args) (config_of args).g_config.register_center_addr
        (new_register_center (gateway_info args))

  pub init_application_made :
      (args : Arguments) (app : Application)
      → (init_application deps files hostname args app).1 ≡ true
      → let app' = (init_application deps files hostname args app).0 in
        ((made_center args).1 ≡ none)
        × (app'.reg_center ≡ some (made_center args).0)
        × (app'.grpc_receiver ≡ some (init_grpc (record { grpc_server = none })).0)
  init_application_made args app h =
      let prepared_app = prepared args app in
      let (_, _, _, k) = init_application_done args app h in
      let h' = ap (λ q. q.1) (sym k) ∙ h in
      let (_, no_error, k') = init_center_done args (config_of args) prepared_app h' in
      let (_, _, k'') =
        init_receiver_done (gateway_info args).addr
          (record prepared_app { reg_center = some (made_center args).0 })
          (ap (λ q. q.1) (sym k') ∙ h') in
      let final = ap (λ q. q.0) k ∙ (ap (λ q. q.0) k' ∙ k'') in
      (no_error, ap (λ q. q.reg_center) final, ap (λ q. q.grpc_receiver) final)

  -- `Init` only succeeds with an address and a port, a configuration that could be loaded and that
  -- names a register center, and a center that could be set up for the gateway's own address. The
  -- application then has that center, online at the address and the port, which holds a client for the register center and one for the
  -- algorithm center and no other, with its jobs scheduled but not running, an HTTP side on the same
  -- center, and a gRPC server.
  pub init_application-IsReady :
      (args : Arguments) (app : Application)
      → (init_application deps files hostname args app).1 ≡ true
      → IsReady args (init_application deps files hostname args app).0
  unfolding init_grpc own_service_info
  init_application-IsReady args app h =
      let conf = config_of args in
      let info = own_service_info hostname args conf.g_config.service_group_tab in
      let made = init deps info conf.g_config.register_center_addr (new_register_center info) in
      let (e, f, g, k) = init_application_done args app h in
      let (has_addrs, no_error, k') =
        init_center_done args conf (prepared args app) (ap (λ q. q.1) (sym k) ∙ h) in
      let (center, has_center, k'') =
        init_receiver_done info.addr (record (prepared args app) { reg_center = some made.0 })
          (ap (λ q. q.1) (sym k') ∙ (ap (λ q. q.1) (sym k) ∙ h)) in
      let (own, named, watched, jobs) =
        init-watches deps info conf.g_config.register_center_addr (new_register_center info)
          no_error in
      let final = ap (λ q. q.0) k ∙ (ap (λ q. q.0) k' ∙ k'') in
      record {
        has_ip = λ q. not-empty args.ip q e;
        has_port = λ q. not-empty args.port q f;
        conf = conf;
        loaded = ap (λ q. (conf, q)) g;
        has_addrs = has_addrs;
        center = made.0;
        has_center = ap (λ q. q.reg_center) final;
        own_info = own;
        own_type = ap (λ q. q.service_type) own;
        own_addr = ap (λ q. q.addr) own;
        own_status = ap (λ q. q.status) own;
        http_host =
            ap (λ q. q.http_receiver) final
            ∙ ap
                (λ q. some (record {
                  mux = init_download base_routes;
                  host = args.ip ++ text ":" ++ args.port;
                  reg_center = q;
                }))
                (sym has_center ∙ refl);
        well_named = named;
        held = λ name.
            watched name ∙ or_none (name_of register_center) (name_of service_algo_center) name;
        jobs = jobs;
        http = _;
        has_http = ap (λ q. q.http_receiver) final;
        serves_center = sym has_center;
        grpc = _;
        has_grpc = ap (λ q. q.grpc_receiver) final;
      }

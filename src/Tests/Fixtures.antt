-- ===== src/Tests/Fixtures.antt =====
-- Concrete third parties, and the services that the tests use.
use mathlib.Core.List.{Memᴰ}
use algogateway.Common.{
  is_neg, All, ◌==◌, ◌-◌, Bytes, ℕ, zero, suc, ℤ, pos, negsuc, Bool, true, false, text, none, some,
  List, [], ◌∷◌, Result, ok, err, itoa, itoa_int, length, ltb, ◌≡◌, refl, same, ◌||◌, if◌then◌else◌,
  arith,
}
use algogateway.Protos.Codec.{EnumNames, Codec, find_name}
use algogateway.Protos.Enums.{
  register_center, result_ok, status_online, service_algo_center, status_offline,
}
use algogateway.Protos.Messages.{ServiceInfo}
use algogateway.RegisterCenter.Options.{RealNode}
use algogateway.RegisterCenter.Client.{UnifiedClient}
use algogateway.RegisterCenter.Client.Interfaces.{Semver, Dial, Rpc}
use algogateway.RegisterCenter.Resolver.{new_resolver}
use algogateway.RegisterCenter.Center.{RegisterCenter, new_crontab}
use algogateway.RegisterCenter.Center.Interfaces.{Deps}
use algogateway.RegisterCenter.Balancer.Ring.{HashRing, added}
use algogateway.GateWay.Interfaces.{HttpDeps}
use mathlib.Core.Path.{subst}

abbrev name_or_number : List (ℤ × Bytes) → ℤ → Bytes
name_or_number t n = elim (find_name t n) [ none ↦ itoa_int n | some s ↦ s ]

pub known_name :
    (t : List (ℤ × Bytes)) (n : ℤ) {s : Bytes} → find_name t n ≡ some s → name_or_number t n ≡ s
known_name t n h = ground arith

pub unknown_name :
    (t : List (ℤ × Bytes)) (n : ℤ) → find_name t n ≡ none → name_or_number t n ≡ itoa_int n
unknown_name t n h = ground arith

abbrev pub enums : EnumNames
enums = record {
  string_of = name_or_number;
  string_of_known = λ t n h. known_name t n h;
  string_of_unknown = λ t n h. unknown_name t n h;
}

-- Versions are compared by their length.
abbrev compare_length : Bytes → Bytes → ℤ
compare_length v w = if ltb (length v) (length w) then negsuc 0 else pos (length v - length w)

abbrev starts_with_v : Bytes → Bool
starts_with_v [] = false
starts_with_v (c ∷ s) = c == b'v'

pub compare_length_self : (v : Bytes) → compare_length v v ≡ pos 0
compare_length_self v = ground arith

pub compare_length_trans :
    (u v w : Bytes)
    → is_neg (compare_length u v) ≡ false
    → is_neg (compare_length v w) ≡ false
    → is_neg (compare_length u w) ≡ false
compare_length_trans u v w h k = ground arith

abbrev pub semver : Semver
semver = record {
  is_valid = starts_with_v;
  major = λ v. [];
  compare = compare_length;
  compare_self = compare_length_self;
  compare_trans = compare_length_trans;
}

abbrev pub dial : Dial
dial = λ addr. record { builds = true; error = none }

-- Every service answers `ok`.
abbrev pub rpc : Rpc
rpc = λ name ctx req. ok (record { cmd = req.cmd; result = result_ok; response = text "ok" })

abbrev pub codec : Codec
codec = record {
  marshal_online = λ m. ok (text "online");
  marshal_offline = λ m. ok (text "offline");
  marshal_ping = λ m. ok (text "ping");
  marshal_check = λ m. ok (text "check");
  unmarshal_online_reply = λ b. ok (record { watch_list = [] });
  unmarshal_check_reply = λ b. ok (record { watch_list = [] });
  unmarshal_notify = λ b. ok (record { service_info = none });
}

abbrev pub deps : Deps
deps = record {
  enums = enums;
  semver = semver;
  dial = dial;
  rpc = rpc;
  codec = codec;
  add_func = λ spec job. none;
}

abbrev first_key : List Bytes → Bytes → ℕ → Result (List Bytes)
first_key [] name n = err (text "empty circle")
first_key (k ∷ ks) name zero = ok []
first_key (k ∷ ks) name (suc n) = ok (k ∷ [])

ok-injective : {xs ys : List Bytes} → ok xs ≡ ok ys → xs ≡ ys
ok-injective h = cc

abbrev circle : List Bytes → List Bytes
circle keys = added [] (λ k c. k ∷ c) keys

pub first_key_sound :
    (keys : List Bytes) (name : Bytes) (n : ℕ) (found : List Bytes)
    → first_key (circle keys) name n ≡ ok found
    → All (λ k. Memᴰ k keys) found
first_key_sound [] name n found h = absurd cc
first_key_sound (k ∷ ks) name zero found h =
    subst (λ q. All (λ j. Memᴰ j (k ∷ ks)) q) (ok-injective h) tt
first_key_sound (k ∷ ks) name (suc n) found h =
    subst (λ q. All (λ j. Memᴰ j (k ∷ ks)) q) (ok-injective h) (Memᴰ.head refl, tt)

-- A ring that finds the key which was added last.
abbrev pub ring : HashRing
ring = record {
  Circle = List Bytes;
  new = [];
  add = λ k c. k ∷ c;
  get_n = first_key;
  get_n_sound = first_key_sound;
  get_n_some = λ key keys name n. (key, [], refl);
}

abbrev pub http_deps : HttpDeps
http_deps = record {
  Message = Bytes;
  Float = ℕ;
  Other = Bytes;
  is_ip = λ s. same s (text "127.0.0.1") || same s (text "10.0.0.7");
  split_host = λ s. ok s;
  unmarshal_json = λ b. ok [];
  format_float = itoa;
  marshal_other = λ s. s;
  marshal_response = λ r. ok r.msg;
  marshal_request = λ fields. ok (text "request");
  unmarshal_response = λ b m. ok b;
  pb2json = λ m. ok m;
  quote = λ s. s;
  new_uuid = text "uuid";
  marshal_empty = λ code msg dur. (msg, refl);
}

-- A service of the algorithm center.
abbrev pub algo_center_info : ServiceInfo
algo_center_info = record {
  service_type = service_algo_center;
  semver = text "1.0.0";
  addr = text "10.0.0.7:90";
  host_name = [];
  status = status_online;
  rely_list = [];
  service_weight = pos 2;
  connect_mode = pos 0;
  group_tab = [];
  service_name = [];
  nickname = [];
}

abbrev pub offline_info : ServiceInfo
offline_info = record algo_center_info { status = status_offline }

abbrev pub node : RealNode
node = record {
  service_type = service_algo_center;
  addr = text "a";
  semver = text "1.0.0";
  status = status_online;
}

-- A client of the algorithm center that is connected and knows no service.
abbrev pub client : UnifiedClient
client = record {
  service_type = service_algo_center;
  service_name = text "SERVICE_ALGO_CENTER";
  rely_semver = text "v1.0.0";
  connected = true;
  service_resolver = some new_resolver;
  si_map = [];
  rn_map = [];
}

-- The client of the register center.
abbrev pub center_client : UnifiedClient
center_client = record client {
  service_type = register_center;
  service_name = text "REGISTER_CENTER";
}

-- A center with these clients.
abbrev pub center : RegisterCenter
center = record {
  service_info = algo_center_info;
  client_maps = (text "REGISTER_CENTER", center_client) ∷ (text "SERVICE_ALGO_CENTER", client) ∷ [];
  crontab = new_crontab;
}

-- ===== src/Config/Lists.antt =====
-- getCompileConfig of cmd/nextpath-engine/main.go. `atoi` is strconv.Atoi, with 0 for a number that is
-- not positive: CompileLists takes the limit 500 for any of these.
use next_path.Base.{Bool, true, false, ℕ, Option, none, some}
use next_path.Config.{get_env, get_env_bool}
use next_path.Net.{Bytes}
use next_path.Text.{codes}

pub record CompileConfig : Type 0 where
  pub sources_dir : Bytes
  pub manual_dir : Bytes
  pub result_dir : Bytes
  pub download_dir : Bytes
  pub route_all : Bool
  pub filter_casino : Bool
  pub block_ads : Bool
  pub enable_ipv6 : Bool
  pub limit : ℕ

unfoldable pub get_compile_config :
    (Bytes → Option Bytes)
    → (Bytes → Bytes)
    → (Bytes → Bytes)
    → (Bytes → Option ℕ)
    → Bytes
    → CompileConfig
get_compile_config lookup_env trim_space to_lower atoi result_dir =
    let env = get_env lookup_env trim_space in
    let flag = get_env_bool lookup_env trim_space to_lower in
    let agg_limit : ℕ = elim (atoi (env (codes "AGGREGATE_COUNT") (codes "500"))) [
      | none ↦ 500
      | some n ↦ n
    ] in
    record {
      sources_dir = env (codes "SOURCES_DIR") (codes "/app/nextpath/lists/sources");
      manual_dir = env (codes "MANUAL_DIR") (codes "/app/nextpath/lists/manual");
      result_dir = result_dir;
      download_dir = env (codes "DOWNLOAD_DIR") (codes "/app/nextpath/download");
      route_all = flag (codes "ROUTE_ALL") false;
      filter_casino = flag (codes "FILTER_CASINO") true;
      block_ads = flag (codes "BLOCK_ADS") true;
      enable_ipv6 = flag (codes "ENABLE_IPV6") true;
      limit = agg_limit;
    }

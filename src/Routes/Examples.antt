-- ===== src/Routes/Examples.antt =====
-- Requests with the right token: a recovery, and a restart while the updater holds the lock.
use signalk_doctor_server.Common.{◌≡◌, refl, true, none, some, [], ◌∷◌, List, ℕ}
use signalk_doctor_server.Common.Text.{codes, codes_eq, trim, strip_i}
use signalk_doctor_server.Mutex.{
  switch, updater, LockFile, missing, written, no_faults, Caller, Disk, with_mutex, acquire_mutex,
  release,
}
use signalk_doctor_server.Recovery
use signalk_doctor_server.Installer.{answer, got, copies, writes}
use signalk_doctor_server.Auth.{
  no_cache, Files, load_token, cached, extract_token, bearer, after_bearer, require_token,
}
use signalk_doctor_server.Auth.Issued.{bearing}
use signalk_doctor_server.Routes.{
  Meets, World, recover_quadlets, restart_server, run_route, reply_of, status, post_route,
}
use signalk_doctor_server.Routes.Guarded.{IsGuarded, post_route-IsGuarded}

abbrev meets : Meets
meets = record {
  recovery = record {
    restore = λ q. Recovery.no_fault;
    no_snapshot = λ p. "ENOENT";
    reload = none;
    restart = λ u. none;
  };
  last_good = some (record {
    updated_at = "t0";
    quadlets =
        ("signalk-server.container", record { tag = "2.9.0"; image = "i"; snapshot_path = "/s/1" })
        ∷ [];
  });
  pages = record {
    settings = record {
      doctor_data_var = none;
      host_bin_dir_var = none;
      pages_base_var = some "p";
    };
    http = λ url. answer 200 (got url);
    hash = λ body. body;
    decimal = λ n. "";
    stamp = λ path. "t";
    read_fault = λ path. none;
    copy_fault = λ path. copies;
    write_fault = λ path. writes;
  };
  started_at = "t1";
  finished_at = "t2";
  restart_error = some "bus";
}

abbrev world : World
world = record {
  quadlets = record {
    quadlets = ("signalk-server.container", "broken") ∷ [];
    snapshots = ("/s/1", "Image=i:2.9.0") ∷ [];
    calls = [];
  };
  artifacts = record { host_bin = true; files = []; snapshots = []; temps = [] };
  restarts = [];
}

abbrev disk : LockFile → Disk World
disk file = record { lock_file = file; rest = world }

abbrev files : Files
files path = some (codes "abc")

abbrev caller : Caller
caller = record { now = "t1"; pid = 7; nonce = "n" }

abbrev held : LockFile
held = written (record {
  owner = updater;
  operation = switch;
  started_at = "t0";
  pid = none;
  nonce = some "m";
})

post_route-IsGuarded_example :
    let (cache, d, reply) =
      post_route no_faults caller meets "/data/token" files
        (bearing (codes "abc") none)
        recover_quadlets
        no_cache
        (disk missing) in
    IsGuarded caller meets recover_quadlets
      (disk missing)
      (d, reply)
      (require_token "/data/token" files (bearing (codes "abc") none) no_cache).1
post_route-IsGuarded_example =
    post_route-IsGuarded caller meets "/data/token" files (bearing (codes "abc") none)
      recover_quadlets no_cache (disk missing)

abbrev answers : List ℕ → LockFile → ℕ
answers token file =
    let (cache, d, reply) =
      post_route no_faults caller meets "/data/token" files (bearing token none) restart_server
        no_cache (disk file) in
    status reply

bus_fails : answers (codes "abc") missing ≡ 500
unfolding post_route require_token load_token cached extract_token bearer strip_i after_bearer trim
    codes_eq with_mutex acquire_mutex release run_route reply_of
bus_fails = refl

lock_held : answers (codes "abc") held ≡ 409
unfolding post_route require_token load_token cached extract_token bearer strip_i after_bearer trim
    codes_eq with_mutex acquire_mutex run_route reply_of
lock_held = refl

no_token : answers (codes "abd") missing ≡ 401
unfolding post_route require_token load_token cached extract_token bearer strip_i after_bearer trim
    codes_eq
no_token = refl

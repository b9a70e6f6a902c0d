-- ===== src/Routes/Guarded.antt =====
-- What stands between a request and a change of the host: the token and the lock.
use signalk_doctor_server.Common.{
  ◌≡◌, ◌≢◌, refl, subst, ap, sym, ◌∙◌, ◌⊎◌, inl, inr, Option, none, some, String,
}
use signalk_doctor_server.Mutex.{
  LockInfo, LockFile, missing, torn, written, no_faults, Caller, info_for, Completion, Disk,
}
use signalk_doctor_server.Mutex.Ownership.{with_mutex_runs, with_mutex_busy}
use signalk_doctor_server.Installer
use signalk_doctor_server.Installer.{RefreshSummary, Ended, raised, refresh_installer}
use signalk_doctor_server.Auth.{Cache, Files, Headers, Gate, passed, refused, require_token}
use signalk_doctor_server.Auth.Held.{require_token_refused}
use signalk_doctor_server.Routes.{
  summary_of, restart_of, Route, recover_quadlets, recover_updater, refresh, restart_server, World,
  Meets, Answer, operation_of, after_recovery, after_refresh, run_route, Reply, denied, conflict,
  busy_message, busy_hint, reply_of, locked, gated, post_route, status,
}

-- Without a lock file the operation ran with its own lock on disk and let it go; with one nothing
-- is changed, and the reply names a holder.
abbrev pub IsLocked :
    Caller → Meets → Route → (d : Disk World) → Disk World × Reply → LockFile → Type 0
IsLocked c x route d r missing =
    let (d', result) =
      run_route x route (record d { lock_file = written (info_for c (operation_of route)) }) in
    (r ≡ (record { lock_file = missing; rest = d'.rest }, reply_of route result))
    × ((status r.1 ≡ 200) ⊎ (status r.1 ≡ 500))
IsLocked c x route d r torn =
    (l : LockInfo) × (r ≡ (d, conflict (busy_message l) l (busy_hint route l)))
IsLocked c x route d r (written held) =
    (l : LockInfo) × (r ≡ (d, conflict (busy_message l) l (busy_hint route l)))

-- Where the token is refused, nothing is changed either.
abbrev pub IsGuarded :
    Caller → Meets → Route → (d : Disk World) → Disk World × Reply → Gate → Type 0
IsGuarded c x route d r passed = IsLocked c x route d r d.lock_file
IsGuarded c x route d r (refused code e) = (r ≡ (d, denied code e)) × ((code ≡ 401) ⊎ (code ≡ 503))

run_route_lock :
    (x : Meets) (route : Route) (d : Disk World) → (run_route x route d).0.lock_file ≡ d.lock_file
unfolding run_route after_recovery after_refresh
run_route_lock x recover_quadlets d = refl
run_route_lock x recover_updater d = refl
run_route_lock x refresh d = refl
run_route_lock x restart_server d = refl

run_route_status :
    (x : Meets) (route : Route) (d : Disk World)
    → (status (reply_of route (run_route x route d).1) ≡ 200)
      ⊎ (status (reply_of route (run_route x route d).1) ≡ 500)
unfolding run_route after_recovery after_refresh summary_of restart_of reply_of
run_route_status x recover_quadlets d = inl refl
run_route_status x recover_updater d = inl refl
run_route_status x refresh d =
    by_end (refresh_installer x.pages x.started_at x.finished_at d.rest.artifacts).1
  where
    by_end :
        (r : Ended RefreshSummary)
        → (status (reply_of refresh (summary_of r)) ≡ 200)
          ⊎ (status (reply_of refresh (summary_of r)) ≡ 500)
    by_end (Installer.returned s) = inl refl
    by_end (raised e) = inr refl
run_route_status x restart_server d = by_error x.restart_error
  where
    by_error :
        (o : Option String)
        → (status (reply_of restart_server (restart_of o)) ≡ 200)
          ⊎ (status (reply_of restart_server (restart_of o)) ≡ 500)
    by_error none = inl refl
    by_error (some e) = inr refl

locked-IsLocked :
    (c : Caller) (x : Meets) (route : Route) (d : Disk World)
    → IsLocked c x route d (locked no_faults c x route d) d.lock_file
unfolding locked reply_of
locked-IsLocked c x route d = by_file d.lock_file refl
  where
    sent : Disk World × Completion Answer → Disk World × Reply
    sent (d', result) = (d', reply_of route result)

    busy_there :
        d.lock_file ≢ missing
        → (l : LockInfo) × (locked no_faults c x route d
            ≡ (d, conflict (busy_message l) l (busy_hint route l)))
    busy_there there =
        let (l, e) = with_mutex_busy c (operation_of route) (run_route x route) d there in
        (l, ap sent e)

    by_file :
        (file : LockFile)
        → d.lock_file ≡ file
        → IsLocked c x route d (locked no_faults c x route d) file
    by_file missing e =
        let run = ap sent (
          with_mutex_runs c (operation_of route) (run_route x route) d (run_route_lock x route)
            e) in
        (
          run,
          subst (λ n. (status n ≡ 200) ⊎ (status n ≡ 500)) (sym (ap (λ p. p.1) run))
              (run_route_status x route
                (record d { lock_file = written (info_for c (operation_of route)) })),
        )
    by_file torn e = busy_there (λ k. let f : torn ≡ missing = sym e ∙ k in cc)
    by_file (written l) e = busy_there (λ k. let f : written l ≡ missing = sym e ∙ k in cc)

-- With any token and lock: a request changes the host only where its token passed and no lock file
-- was there, and then it ran under its own lock, which is gone afterwards, with 200 or 500; in all
-- other cases the host and the lock are as they were, with 401 or 503 for the token and 409 with a
-- holder for the lock. No call on the lock file fails, and nobody else touches it meanwhile.
pub post_route-IsGuarded :
    (c : Caller) (x : Meets) (path : String) (files : Files) (h : Headers) (route : Route)
    (cache : Cache) (d : Disk World)
    → let (cache', d', reply) = post_route no_faults c x path files h route cache d in
      IsGuarded c x route d (d', reply) (require_token path files h cache).1
unfolding post_route gated
post_route-IsGuarded c x path files h route cache d =
    by_gate (require_token path files h cache).1 refl
  where
    by_gate :
        (g : Gate)
        → (require_token path files h cache).1 ≡ g
        → IsGuarded c x route d (gated no_faults c x route d g) g
    by_gate passed k = locked-IsLocked c x route d
    by_gate (refused code e) k = (refl, require_token_refused path files h cache code e k)

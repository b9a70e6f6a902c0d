-- ===== src/Errors/Examples.antt =====
-- The categories of some messages of the runtime and the registry.
use signalk_doctor_server.Common.{◌≡◌, refl}
use signalk_doctor_server.Errors.{
  network, registry_unavailable, not_found, permission, categorize_error,
}

kinds :
    ((categorize_error "connect ECONNREFUSED 127.0.0.1:80").kind ≡ network)
    × ((categorize_error "tags/list: HTTP 503").kind ≡ registry_unavailable)
    × ((categorize_error "fetch failed").kind ≡ registry_unavailable)
    × ((categorize_error "No such container: x").kind ≡ not_found)
    × ((categorize_error "EACCES: Permission denied").kind ≡ permission)
unfolding categorize_error
kinds = (refl, refl, refl, refl, refl)

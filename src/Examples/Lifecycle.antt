-- ===== src/Examples/Lifecycle.antt =====
-- A session that is prepared, granted, and has a mirror in flight.
use cyppie_backend.Common.{◌≡◌, refl, ◌≤◌, ◌+◌, ◌++◌, [], some}
use cyppie_backend.Common.Text.{text_eq}
use cyppie_backend.Common.Dict.{get, set, has, NoRepeat}
use cyppie_backend.Common.Result.{ok}
use cyppie_backend.CopySession.Registry.{upsert, load, load_from, grant}
use cyppie_backend.CopySession.Gate.{inflight_at, assert_mirrorable, reserve, book}
use cyppie_backend.CopySession.Methods.{granted_record}
use cyppie_backend.CopySession.Tickets.{sum_at, txs_at}
use cyppie_backend.CopySession.Lifecycle.{
  Provisioned, prepares, grants, reserves, Reach, here, next, start,
}
use cyppie_backend.CopySession.Exposure.{
  exposure_bound, mirrored_once, inflight-refines, restart_lossless,
}
use cyppie_backend.Examples.Data.{session_id, tx_a, record_new, granted_system, reserved_system}

record_new-Provisioned : Provisioned start.reg record_new
unfolding load load_from get
record_new-Provisioned = record { new = refl; unspent = refl; unmirrored = refl }

pub reserved-ok :
    (reserve session_id 60 tx_a granted_system.reg).0 ≡ ok (granted_record 5 record_new)
unfolding reserve assert_mirrorable grant upsert load load_from get set has text_eq
reserved-ok = refl

pub granted-Reach : Reach start granted_system
granted-Reach = next (next here (prepares record_new record_new-Provisioned)) (grants 5 session_id)

pub reserved-Reach : Reach start reserved_system
reserved-Reach = next granted-Reach (reserves session_id tx_a 60 reserved-ok)

found : get session_id reserved_system.reg.records ≡ some (granted_record 5 record_new)
unfolding reserve assert_mirrorable book grant upsert load load_from get set has text_eq
found = refl

exposure_bound_example : 0 + (inflight_at session_id reserved_system.reg).spend ≤ 100
exposure_bound_example =
    exposure_bound session_id (granted_record 5 record_new) reserved-Reach found

mirrored_once_example : NoRepeat ([] ++ (inflight_at session_id reserved_system.reg).txs)
mirrored_once_example = mirrored_once session_id (granted_record 5 record_new) reserved-Reach found

inflight-refines_example :
    ((inflight_at session_id reserved_system.reg).txs ≡ txs_at session_id reserved_system.tickets)
    × ((inflight_at session_id reserved_system.reg).spend
        ≡ sum_at session_id reserved_system.tickets)
inflight-refines_example = inflight-refines session_id reserved-Reach

restart_lossless_example : (load reserved_system.reg.file).records ≡ reserved_system.reg.records
restart_lossless_example = restart_lossless reserved-Reach

-- ===== src/Tests/Network.antt =====
-- The theorems on the writer, the HTTP client and conflict recovery at one write of the contact.
use retro_cloud_sync.Prelude.{
  ◌+◌, ◌*◌, ◌≡◌, refl, ◌⊎◌, false, [], ◌∷◌, ◌++◌, arith, leb, length, if◌then◌else◌, codes, ok,
  find, any, count_where, update_where,
}
use retro_cloud_sync.Journal.Attempt.{
  get, begin_attempt, acknowledge, update_one, may_acknowledge, is_unmirrored,
}
use retro_cloud_sync.Journal.Attention.{
  resolution_receipt, is_resolution_of, resolution_mirrored, may_mirror,
}
use retro_cloud_sync.Http.Receive.{Receiving, receive_body, exceed}
use retro_cloud_sync.Http.Request.{perform_request}
use retro_cloud_sync.Http.Limits.{receive_body_exact}
use retro_cloud_sync.Http.Sent.{
  MaySend, Extends, perform_request-Extends, perform_request_conditional,
}
use retro_cloud_sync.Writer.Attempt.{after_write, decide, attempt}
use retro_cloud_sync.Writer.Probes.{AtMostOne}
use retro_cloud_sync.Writer.Sends.{attempt-Sends}
use retro_cloud_sync.Writer.Verdicts.{Decided, decide_lem, Ends, after_write_lem}
use retro_cloud_sync.Recovery.Model.{
  Callbacks, deferred, complete, accept_and_acknowledge, mirror_transaction, end_transaction,
  set_checkpoint,
}
use retro_cloud_sync.Recovery.Complete.{Completed, complete_ok}
use retro_cloud_sync.Tests.Scenario.{
  answer, old_tag, new_body, works, client, network, worker, world, put, waiting_operation, waiting,
  resolved_db,
}

attempt-Sends_example :
    AtMostOne worker waiting_operation [] (attempt worker 1 world).0.trace
    × (((attempt worker 1 world).0.trace ≡ [])
        ⊎ ((begin_attempt (λ k. works (1 + k)) 7 1 worker.now waiting).1 ≡ ok tt))
unfolding get find
attempt-Sends_example = attempt-Sends worker 1 world {o = waiting_operation} refl

decide_lem_example :
    Decided worker waiting_operation
      (answer old_tag new_body)
      world
      (decide worker waiting_operation (answer old_tag new_body) world)
decide_lem_example = decide_lem worker waiting_operation (answer old_tag new_body) world

after_write_lem_example :
    Ends worker waiting_operation
      (answer old_tag new_body)
      world
      (after_write worker waiting_operation (answer old_tag new_body) world)
after_write_lem_example = after_write_lem worker waiting_operation (answer old_tag new_body) world

perform_request-Extends_example :
    Extends (MaySend network client put) [] 6 (perform_request network client put []).0
perform_request-Extends_example = perform_request-Extends network client put []

perform_request_conditional_example :
    let after = (perform_request network client put []).0 in (after ≡ []) ⊎ (after ≡ put ∷ [])
perform_request_conditional_example = perform_request_conditional network client put [] refl

abbrev receiving : Receiving
receiving = record { body = codes "BEGIN"; maximum_bytes = 8; exceeded_limit = false }

receive_body_exact_example : receive_body 1 4 (codes ":VCA") receiving ≡ (
    if leb (length receiving.body + 1 * 4) receiving.maximum_bytes
    then (record receiving { body = receiving.body ++ codes ":VCA" }, 1 * 4)
    else (exceed receiving, 0))
receive_body_exact_example =
    receive_body_exact 1 4 (codes ":VCA") receiving refl (omega arith) (omega arith)

abbrev callbacks : Callbacks
callbacks = record {
  resolve = λ o. deferred;
  save_mirror = λ o db. (db, ok tt);
  accept_local = λ o receipt. ok tt;
}

complete_ok_example :
    Completed callbacks 7 1 resolved_db (complete works callbacks 7 1 resolved_db).0
unfolding complete get find resolution_receipt is_resolution_of any accept_and_acknowledge
    mirror_transaction end_transaction set_checkpoint resolution_mirrored count_where may_mirror
    acknowledge update_one may_acknowledge is_unmirrored update_where
complete_ok_example = complete_ok works callbacks 7 1 resolved_db refl

-- ===== src/Tests/Webhooks.antt =====
-- Runs of the model of pkg/console/webhooks.go.
use harvester_installer.Prelude.{
  Result, [], arith, err, false, if◌then◌else◌, ok, refl, slice_contains, suc, true, zero, ℕ, ◌<◌,
  ◌==◌, ◌∷◌, ◌≡◌,
}
use harvester_installer.Config.Types.{Webhook}
use harvester_installer.Console.Webhooks.{
  RenderedWebhook, Renderer, RequestError, handle_webhook, handle_webhooks, is_valid_event,
  is_valid_http_method, prepare_webhook, prepare_webhooks, refused, timed_out,
}
use harvester_installer.Console.Webhooks.Requests.{
  ArePrepared, handle_webhook-settles, handle_webhooks-until_failure, hooks_of,
  prepare_webhooks-IsPrepared, times_out, until_failure,
}

-- Times out twice, and is then refused.
abbrev slow : ℕ → Result RequestError (Unit {0})
slow zero = err (timed_out "a")
slow (suc zero) = err (timed_out "b")
slow (suc (suc n)) = err (refused "404")

handle_webhook-settles_example : handle_webhook slow ≡ (err (refused "404"), 3)
handle_webhook-settles_example = handle_webhook-settles slow 2 (omega arith) (λ j h. twice j h) refl
  where
    twice : (j : ℕ) → j < 2 → times_out (slow j) ≡ true
    twice zero h = refl
    twice (suc zero) h = refl
    twice (suc (suc j)) h = absurd (omega arith)

abbrev renderer : Renderer
renderer = record { to_upper = λ s. if s == "get" then "GET" else s; render = λ s. ok s }

abbrev hook : Webhook
hook = record {
  event = "STARTED";
  method = "get";
  headers = [];
  url = "http://10.0.0.1/";
  payload = "";
  insecure = false;
  basic_auth = record { user = ""; password = "" };
}

abbrev ready : RenderedWebhook
ready = record {
  webhook = record hook { method = "GET" };
  rendered_url = "http://10.0.0.1/";
  rendered_payload = "";
  valid = true;
}

hook-ready : prepare_webhooks renderer (hook ∷ []) ≡ ok (ready ∷ [])
unfolding prepare_webhooks prepare_webhook is_valid_event is_valid_http_method slice_contains
hook-ready = refl

prepare_webhooks-IsPrepared_example : ArePrepared renderer (hook ∷ []) (ready ∷ [])
prepare_webhooks-IsPrepared_example = prepare_webhooks-IsPrepared renderer (hook ∷ []) hook-ready

handle_webhooks-until_failure_example :
    handle_webhooks (λ h. err (refused "404")) "STARTED" (ready ∷ ready ∷ [])
    ≡ until_failure (λ h. err (refused "404")) (hooks_of "STARTED" (ready ∷ ready ∷ []))
handle_webhooks-until_failure_example =
    handle_webhooks-until_failure (λ h. err (refused "404")) "STARTED" (ready ∷ ready ∷ [])

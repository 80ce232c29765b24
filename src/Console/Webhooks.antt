-- ===== src/Console/Webhooks.antt =====
-- pkg/console/webhooks.go. The upper case of a text, the rendering of a template and what the n-th
-- request of a hook answers are parameters.
pub mod Requests
use harvester_installer.Prelude.{
  Bool, List, Result, String, [], err, fail_if, false, if◌then◌else◌, map_err, not, ok,
  slice_contains, suc, succeeds, true, zero, ℕ, ◌==◌, ◌>>=◌, ◌>>◌, ◌∷◌,
}
use harvester_installer.Config.Types.{Webhook}

-- `config.Webhook` with what it is rendered to.
pub record RenderedWebhook : Type 0 where
  pub webhook : Webhook
  pub rendered_url : String
  pub rendered_payload : String
  pub valid : Bool

abbrev pub webhook_max_retries : ℕ
webhook_max_retries = 3

unfoldable pub is_valid_event : String → Bool
is_valid_event event = slice_contains ("STARTED" ∷ "SUCCEEDED" ∷ "FAILED" ∷ []) event

unfoldable pub is_valid_http_method : String → Bool
is_valid_http_method method =
    slice_contains
      ("GET" ∷ "HEAD" ∷ "POST" ∷ "PUT" ∷ "PATCH" ∷ "DELETE" ∷ "CONNECT" ∷ "OPTIONS" ∷ "TRACE" ∷ [])
      method

-- What `doHTTPReq` returns: a `*url.Error` that is a timeout, or another error.
pub data RequestError : Type 0 where
  timed_out : String → RequestError
  refused : String → RequestError

pub data WebhookError : Type 0 where
  unknown_event : String → WebhookError
  unknown_http_method : String → WebhookError
  bad_template : String → WebhookError

-- `string(text)` upper-cased, and a template rendered in the context of the hooks.
pub record Renderer : Type 0 where
  pub to_upper : String → String
  pub render : String → Result String String

-- The loop: `left` of the retries are left, and `calls` requests were made. With the number of
-- requests made in all.
unfoldable pub request_from :
    (ℕ → Result RequestError (Unit {0})) → ℕ → ℕ → Result RequestError (Unit {0}) × ℕ
request_from request zero calls = (request calls, suc calls)
request_from request (suc left) calls = elim (request calls) [
  | ok _ ↦ (ok tt, suc calls)
  | err (refused e) ↦ (err (refused e), suc calls)
  | err (timed_out e) ↦ request_from request left (suc calls)
]

-- `RenderedWebhook.Handle`
unfoldable pub handle_webhook :
    (ℕ → Result RequestError (Unit {0})) → Result RequestError (Unit {0}) × ℕ
handle_webhook request = request_from request webhook_max_retries 0

module _ (r : Renderer) where
  unfoldable pub prepare_webhook : Webhook → Result WebhookError RenderedWebhook
  prepare_webhook h = do
    let w = record h { method = r.to_upper h.method }
    fail_if (not (is_valid_event w.event)) (unknown_event w.event)
    fail_if (not (is_valid_http_method w.method)) (unknown_http_method w.method)
    url ← map_err bad_template (r.render w.url)
    payload ← map_err bad_template (r.render w.payload)
    ok (record { webhook = w; rendered_url = url; rendered_payload = payload; valid = false })

  -- One hook that fails fails all.
  unfoldable pub prepare_webhooks : List Webhook → Result WebhookError (List RenderedWebhook)
  prepare_webhooks [] = ok []
  prepare_webhooks (h ∷ hooks) = do
    p ← prepare_webhook h
    rest ← prepare_webhooks hooks
    ok (record p { valid = true } ∷ rest)

-- `RendererWebhooks.Handle`, with the hooks that were handled: the first that fails ends it.
unfoldable pub handle_webhooks :
    (RenderedWebhook → Result RequestError (Unit {0}))
    → String
    → List RenderedWebhook
    → List RenderedWebhook
handle_webhooks handle event [] = []
handle_webhooks handle event (h ∷ hooks) =
    let rest = handle_webhooks handle event hooks in
    if event == h.webhook.event then h ∷ (if succeeds (handle h) then rest else []) else rest

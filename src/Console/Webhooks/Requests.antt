-- ===== src/Console/Webhooks/Requests.antt =====
-- pkg/console/webhooks.go: how often a hook is requested, and which hooks are prepared and handled.
use harvester_installer.Prelude.{
  Among, Bool, Bool-cases, List, Result, String, [], arith, eq_iff, err, fail_if, false,
  if◌then◌else◌, inl, inr, map_err, not, ok, refl, slice_contains, slice_contains_iff, suc,
  succeeds, sym, true, zero, ℕ, ◌<◌, ◌==◌, ◌>>=◌, ◌>>◌, ◌∙◌, ◌∷◌, ◌≡◌, ◌≤◌, ◌⊎◌,
}
use harvester_installer.Config.Types.{Webhook}
use harvester_installer.Console.Webhooks.{
  RenderedWebhook, Renderer, RequestError, WebhookError, bad_template, handle_webhook,
  handle_webhooks, is_valid_event, is_valid_http_method, prepare_webhook, prepare_webhooks, refused,
  request_from, timed_out, unknown_event, unknown_http_method,
}

-- Whether a request timed out.
abbrev pub times_out : Result RequestError (Unit {0}) → Bool
times_out (ok _) = false
times_out (err (refused e)) = false
times_out (err (timed_out e)) = true

module _ (request : ℕ → Result RequestError (Unit {0})) where
  settled :
      (left first : ℕ)
      → times_out (request first) ≡ false
      → request_from request left first ≡ (request first, suc first)
  unfolding request_from
  settled zero first h = refl
  settled (suc left) first h = ground arith

  retried :
      (left first : ℕ)
      → times_out (request first) ≡ true
      → request_from request (suc left) first ≡ request_from request left (suc first)
  unfolding request_from
  retried left first h = ground arith

  -- If request `k + 1` is the first that does not time out, and `k` is 3 at most, then `Handle` makes
  -- `k + 1` requests and returns what the last returns.
  pub handle_webhook-settles :
      (k : ℕ)
      → k ≤ 3
      → ((j : ℕ) → j < k → times_out (request j) ≡ true)
      → times_out (request k) ≡ false
      → handle_webhook request ≡ (request k, suc k)
  unfolding handle_webhook
  handle_webhook-settles zero low slow done = settled 3 0 done
  handle_webhook-settles (suc zero) low slow done =
      retried 2 0 (slow 0 (omega arith)) ∙ settled 2 1 done
  handle_webhook-settles (suc (suc zero)) low slow done =
      retried 2 0 (slow 0 (omega arith)) ∙ retried 1 1 (slow 1 (omega arith)) ∙ settled 1 2 done
  handle_webhook-settles (suc (suc (suc zero))) low slow done =
      retried 2 0 (slow 0 (omega arith))
      ∙ retried 1 1 (slow 1 (omega arith))
      ∙ retried 0 2 (slow 2 (omega arith))
      ∙ settled 0 3 done
  handle_webhook-settles (suc (suc (suc (suc k)))) low slow done = absurd (omega arith)

  -- If the first three requests time out, `Handle` makes a fourth and returns what it returns.
  pub handle_webhook-gives_up :
      ((j : ℕ) → j < 3 → times_out (request j) ≡ true) → handle_webhook request ≡ (request 3, 4)
  unfolding handle_webhook request_from
  handle_webhook-gives_up slow =
      retried 2 0 (slow 0 (omega arith))
      ∙ retried 1 1 (slow 1 (omega arith))
      ∙ retried 0 2 (slow 2 (omega arith))

-- What is prepared from a hook: it is rendered, with its method in upper case, and its event and its
-- method are known.
pub record IsPrepared (r : Renderer) (h : Webhook) (p : RenderedWebhook) : Type 0 where
  pub webhook_is : p.webhook ≡ record h { method = r.to_upper h.method }
  pub is_marked : p.valid ≡ true
  pub event_is : (h.event ≡ "STARTED") ⊎ ((h.event ≡ "SUCCEEDED") ⊎ (h.event ≡ "FAILED"))
  pub method_is :
      Among (r.to_upper h.method) (
        "GET" ∷ "HEAD" ∷ "POST" ∷ "PUT" ∷ "PATCH" ∷ "DELETE" ∷ "CONNECT" ∷ "OPTIONS" ∷ "TRACE" ∷ [])
  pub url_is : r.render h.url ≡ ok p.rendered_url
  pub payload_is : r.render h.payload ≡ ok p.rendered_payload

-- The hooks are prepared one by one, in their order.
abbrev pub ArePrepared : Renderer → List Webhook → List RenderedWebhook → Type 0
ArePrepared r [] [] = Unit
ArePrepared r [] (p ∷ ps) = ⊥
ArePrepared r (h ∷ hooks) [] = ⊥
ArePrepared r (h ∷ hooks) (p ∷ ps) = IsPrepared r h p × ArePrepared r hooks ps

known_event :
    (event : String)
    → is_valid_event event ≡ true
    → (event ≡ "STARTED") ⊎ ((event ≡ "SUCCEEDED") ⊎ (event ≡ "FAILED"))
unfolding is_valid_event slice_contains
known_event event h =
    ground (arith, eq_iff "STARTED" event, eq_iff "SUCCEEDED" event, eq_iff "FAILED" event)

known_method :
    (method : String)
    → is_valid_http_method method ≡ true
    → Among method (
        "GET" ∷ "HEAD" ∷ "POST" ∷ "PUT" ∷ "PATCH" ∷ "DELETE" ∷ "CONNECT" ∷ "OPTIONS" ∷ "TRACE" ∷ [])
unfolding is_valid_http_method
known_method method h = (slice_contains_iff _ method).0 h

module _ (r : Renderer) where
  prepared :
      (h : Webhook) (event method : Bool) (url payload : Result String String) {p : RenderedWebhook}
      → is_valid_event h.event ≡ event
      → is_valid_http_method (r.to_upper h.method) ≡ method
      → r.render h.url ≡ url
      → r.render h.payload ≡ payload
      → (fail_if (not event) (unknown_event h.event)
          >> (fail_if (not method) (unknown_http_method (r.to_upper h.method))
              >> (map_err bad_template url >>= λ u. map_err bad_template payload >>= λ t.
                  ok (record {
                    webhook = record h { method = r.to_upper h.method };
                    rendered_url = u;
                    rendered_payload = t;
                    valid = false;
                  }))))
        ≡ ok p
      → IsPrepared r h (record p { valid = true })
  prepared h false method url payload ev me u v e = cc
  prepared h true false url payload ev me u v e = cc
  prepared h true true (err x) payload ev me u v e = cc
  prepared h true true (ok url) (err x) ev me u v e = cc
  prepared h true true (ok url) (ok payload) {p} ev me u v e =
      let is : record {
        webhook = record h { method = r.to_upper h.method };
        rendered_url = url;
        rendered_payload = payload;
        valid = false;
      }
          ≡ p =
        cc in
      rw (sym is) (record {
        webhook_is = refl;
        is_marked = refl;
        event_is = known_event h.event ev;
        method_is = known_method (r.to_upper h.method) me;
        url_is = u;
        payload_is = v;
      })

  prepare_webhook-IsPrepared :
      (h : Webhook) {p : RenderedWebhook}
      → prepare_webhook r h ≡ ok p
      → IsPrepared r h (record p { valid = true })
  unfolding prepare_webhook
  prepare_webhook-IsPrepared h e = prepared h _ _ _ _ refl refl refl refl e

  cons-IsPrepared :
      (h : Webhook) (first : Result WebhookError RenderedWebhook)
      (others : Result WebhookError (List RenderedWebhook)) (hooks : List Webhook)
      {ps : List RenderedWebhook}
      → ((p : RenderedWebhook) → first ≡ ok p → IsPrepared r h (record p { valid = true }))
      → ((qs : List RenderedWebhook) → others ≡ ok qs → ArePrepared r hooks qs)
      → (first >>= λ p. others >>= λ rest. ok (record p { valid = true } ∷ rest)) ≡ ok ps
      → ArePrepared r (h ∷ hooks) ps
  cons-IsPrepared h (err x) others hooks f g e = cc
  cons-IsPrepared h (ok p) (err x) hooks f g e = cc
  cons-IsPrepared h (ok p) (ok qs) hooks {ps} f g e =
      let is : record p { valid = true } ∷ qs ≡ ps = cc in rw (sym is) (f p refl, g qs refl)

  -- If `PrepareWebhooks` succeeds, it returns, for each hook in its order, that hook with its method
  -- in upper case, marked as valid, its URL and payload rendered from those of the hook; and each hook
  -- has a known event and, in upper case, a known HTTP method.
  pub prepare_webhooks-IsPrepared :
      (hooks : List Webhook) {ps : List RenderedWebhook}
      → prepare_webhooks r hooks ≡ ok ps
      → ArePrepared r hooks ps
  unfolding prepare_webhooks
  prepare_webhooks-IsPrepared [] {ps} e = let is : [] ≡ ps = cc in rw (sym is) tt
  prepare_webhooks-IsPrepared (h ∷ hooks) e =
      cons-IsPrepared h (prepare_webhook r h) (prepare_webhooks r hooks) hooks
        (λ p. prepare_webhook-IsPrepared h) (λ qs. prepare_webhooks-IsPrepared hooks) e

abbrev pub hooks_of : String → List RenderedWebhook → List RenderedWebhook
hooks_of event [] = []
hooks_of event (h ∷ hooks) =
    let rest = hooks_of event hooks in if event == h.webhook.event then h ∷ rest else rest

-- The hooks up to and with the first that fails.
abbrev pub until_failure :
    (RenderedWebhook → Result RequestError (Unit {0})) → List RenderedWebhook → List RenderedWebhook
until_failure handle [] = []
until_failure handle (h ∷ hooks) =
    let rest = until_failure handle hooks in h ∷ (if succeeds (handle h) then rest else [])

-- For an event, the hooks that are handled are those of the event, in their order, up to and with
-- the first that fails.
pub handle_webhooks-until_failure :
    (handle : RenderedWebhook → Result RequestError (Unit {0})) (event : String)
    (hooks : List RenderedWebhook)
    → handle_webhooks handle event hooks ≡ until_failure handle (hooks_of event hooks)
unfolding handle_webhooks
handle_webhooks-until_failure handle event [] = refl
handle_webhooks-until_failure handle event (h ∷ hooks) =
    let rest = handle_webhooks-until_failure handle event hooks in
    elim (Bool-cases (event == h.webhook.event)) [ inl e ↦ rw (e, rest) | inr e ↦ rw (e, rest) ]

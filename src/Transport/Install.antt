-- ===== src/Transport/Install.antt =====
-- `install` of llm_metrics/integrations/_transport.py.
use llm_metrics.Prelude.{
  ℕ, String, Bool, true, false, ◌||◌, Option, none, some, List, [], ◌∷◌, ◌++◌, ◌≡◌, refl, ◌∙◌,
  str_eq, if◌then◌else◌, arith, Bool-cases, inl, inr, ap,
}
use llm_metrics.Transport.{HeaderSpec}

-- a hook of the host's, or one of the SDK's, which carries the marker
pub data Hook : Type 0 where
  host : ℕ → Hook
  ours : HeaderSpec → (is_async : Bool) → Hook

-- `event_hooks` is nothing where the attribute is missing or is no mapping; `is_async` is whether
-- `send` is a coroutine function, and `frozen` whether setting the attribute raises.
pub record HttpClient : Type 0 where
  pub event_hooks : Option (List (String × List Hook))
  pub is_async : Bool
  pub frozen : Bool

-- `hooks.get("response", ())`
unfoldable responses : List (String × List Hook) → List Hook
responses [] = []
responses ((event, hs) ∷ rest) = if str_eq event "response" then hs else responses rest

-- `hooks["response"] = responses`
unfoldable set_responses : List Hook → List (String × List Hook) → List (String × List Hook)
set_responses new [] = ("response", new) ∷ []
set_responses new ((event, hs) ∷ rest) =
    if str_eq event "response" then (event, new) ∷ rest else (event, hs) ∷ set_responses new rest

abbrev is_marked : Hook → Bool
is_marked (host k) = false
is_marked (ours spec a) = true

-- `any(getattr(h, _MARKER, False) for h in responses)`
unfoldable any_marked : List Hook → Bool
any_marked [] = false
any_marked (h ∷ hs) = is_marked h || any_marked hs

-- the rest of `install`, by the hooks that are there
unfoldable install_on :
    HeaderSpec → HttpClient → Option (List (String × List Hook)) → Bool × HttpClient
unfolding responses any_marked set_responses
install_on spec http none = (false, http)
install_on spec http (some hooks) =
    if any_marked (responses hooks) then (true, http) else if http.frozen then (false, http) else (
      true,
      record http {
        event_hooks = some (set_responses (responses hooks ++ ours spec http.is_async ∷ []) hooks);
      },
    )

-- `install`, on the client's `_client`
unfoldable pub install : HeaderSpec → Option HttpClient → Bool × Option HttpClient
unfolding install_on
install spec none = (false, none)
install spec (some http) =
    let (done, http') = install_on spec http http.event_hooks in (done, some http')

responses-set_responses :
    (new : List Hook) (hooks : List (String × List Hook))
    → responses (set_responses new hooks) ≡ new
unfolding responses set_responses
responses-set_responses new [] = refl
responses-set_responses new ((event, hs) ∷ rest) = ground (arith, responses-set_responses new rest)

any_marked-append :
    (hs : List Hook) (spec : HeaderSpec) (a : Bool) → any_marked (hs ++ ours spec a ∷ []) ≡ true
unfolding any_marked
any_marked-append [] spec a = refl
any_marked-append (host k ∷ hs) spec a = any_marked-append hs spec a
any_marked-append (ours _ _ ∷ hs) spec a = refl

install_on-marked :
    (spec : HeaderSpec) (http : HttpClient) (hooks : List (String × List Hook))
    → any_marked (responses hooks) ≡ true
    → install_on spec http (some hooks) ≡ (true, http)
unfolding install_on
install_on-marked spec http hooks h = rw h

install_on-frozen :
    (spec : HeaderSpec) (http : HttpClient) (hooks : Option (List (String × List Hook)))
    → http.frozen ≡ true
    → (install_on spec http hooks).1 ≡ http
unfolding install_on
install_on-frozen spec http none h = refl
install_on-frozen spec http (some hooks) h = ground arith

abbrev with_ours : HeaderSpec → HttpClient → List (String × List Hook) → HttpClient
with_ours spec http hooks = record http {
  event_hooks = some (set_responses (responses hooks ++ ours spec http.is_async ∷ []) hooks);
}

install_on-new :
    (spec : HeaderSpec) (http : HttpClient) (hooks : List (String × List Hook))
    → any_marked (responses hooks) ≡ false
    → http.frozen ≡ false
    → install_on spec http (some hooks) ≡ (true, with_ours spec http hooks)
unfolding install_on
install_on-new spec http hooks new h = rw (new, h)

with_ours-marked :
    (spec : HeaderSpec) (http : HttpClient) (hooks : List (String × List Hook))
    → any_marked (responses (set_responses (responses hooks ++ ours spec http.is_async ∷ []) hooks))
      ≡ true
with_ours-marked spec http hooks =
    rw (responses-set_responses) (any_marked-append (responses hooks) spec http.is_async)

install_on-twice :
    (spec spec' : HeaderSpec) (http : HttpClient) (hooks : Option (List (String × List Hook)))
    → http.event_hooks ≡ hooks
    → let http' = (install_on spec http hooks).1 in
      (install_on spec' http' http'.event_hooks).1 ≡ http'
install_on-twice spec spec' http none is =
    unfold install_on in
    ap (λ (e : Option (List (String × List Hook))). (install_on spec' http e).1) is
install_on-twice spec spec' http (some hooks) is =
    elim (Bool-cases (any_marked (responses hooks))) [
      | inl marked ↦ rw (install_on-marked spec http hooks marked) (
          ap (λ (e : Option (List (String × List Hook))). (install_on spec' http e).1) is
          ∙ ap (λ (r : Bool × HttpClient). r.1) (install_on-marked spec' http hooks marked))
      | inr new ↦ elim (Bool-cases http.frozen) [
        | inl frozen ↦
            rw (install_on-frozen spec http (some hooks) frozen)
              (install_on-frozen spec' http http.event_hooks frozen)
        | inr open_ ↦ rw (install_on-new spec http hooks new open_) (
            ap (λ (r : Bool × HttpClient). r.1)
              (install_on-marked spec' (with_ours spec http hooks) _
                (with_ours-marked spec http hooks)))
      ]
    ]

-- Installing again, with whatever headers, changes nothing more.
pub install-twice :
    (spec spec' : HeaderSpec) (c : Option HttpClient)
    → (install spec' (install spec c).1).1 ≡ (install spec c).1
unfolding install
install-twice spec spec' none = refl
install-twice spec spec' (some http) =
    ap {B = Option HttpClient} some (install_on-twice spec spec' http http.event_hooks refl)

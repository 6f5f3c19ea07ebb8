-- ===== src/Patch/Twice.antt =====
-- Wrapping a client twice (llm_metrics/integrations/openai.py and anthropic.py).
use llm_metrics.Prelude.{
  ℕ, String, Bool, true, Option, none, some, List, [], ◌∷◌, ◌≡◌, refl, ap, str_eq, str_eq_iff,
  arith, Bool-cases, inl, inr, ◌⊎◌,
}
use llm_metrics.Transport.{HeaderSpec}
use llm_metrics.Transport.Install.{HttpClient, install-twice}
use llm_metrics.Patch.{
  Wrapper, stream_manager, call_wrapper, Method, original, wrapped, ProviderClient, patch_found,
  patch, patch_all, install_hook, wrap_openai, wrap_anthropic, patch_create, patch_stream, targets,
  openai_headers, anthropic_headers,
}

-- nothing is left to do at the path: no method, a wrapper, or an attribute that cannot be set
unfoldable pub Settled : String → ProviderClient → Type 0
Settled path c =
    (c.method path ≡ none)
    ⊎ (((w : Wrapper) × (n : String) × (k : ℕ) × (c.method path ≡ some (wrapped w n k)))
        ⊎ (c.frozen path ≡ true))

patch_found-Settled_self :
    (choose : Bool → Wrapper) (path name : String) (m : Option Method) (c : ProviderClient)
    → c.method path ≡ m
    → Settled path (patch_found choose path name m c)
unfolding patch_found Settled
patch_found-Settled_self choose path name none c is = inl is
patch_found-Settled_self choose path name (some (wrapped w n k)) c is = inr (inl (w, n, k, is))
patch_found-Settled_self choose path name (some (original a k)) c is =
    elim (Bool-cases (c.frozen path)) [
      | inl no_set ↦ rw no_set (inr (inr no_set))
      | inr can ↦ rw can (inr (inl (choose a, name, k, ground (arith, str_eq_iff path path))))
    ]

patch_found-Settled :
    (choose : Bool → Wrapper) (path name other : String) (m : Option Method) (c : ProviderClient)
    → c.method path ≡ m
    → Settled other c
    → Settled other (patch_found choose path name m c)
unfolding patch_found Settled
patch_found-Settled choose path name other none c is h = h
patch_found-Settled choose path name other (some (wrapped w n k)) c is h = h
patch_found-Settled choose path name other (some (original a k)) c is h =
    elim (Bool-cases (c.frozen path)) [
      | inl no_set ↦ rw no_set h
      | inr can ↦ rw can (elim (Bool-cases (str_eq path other)) [
        | inl same ↦ inr (inl (choose a, name, k, rw same))
        | inr differs ↦ rw differs h
      ])
    ]

patch_found-Settled_id :
    (choose : Bool → Wrapper) (path name : String) (m : Option Method) (c : ProviderClient)
    → c.method path ≡ m
    → Settled path c
    → patch_found choose path name m c ≡ c
unfolding patch_found Settled
patch_found-Settled_id choose path name none c is h = refl
patch_found-Settled_id choose path name (some (wrapped w n k)) c is h = refl
patch_found-Settled_id choose path name (some (original a k)) c is (inl no_method) = cc
patch_found-Settled_id choose path name (some (original a k)) c is (inr (inl (w, n, j, there))) =
    ground arith
patch_found-Settled_id choose path name (some (original a k)) c is (inr (inr no_set)) = rw no_set

abbrev pub AllSettled : List (String × String) → ProviderClient → Type 0
AllSettled [] c = Unit
AllSettled ((path, name) ∷ rest) c = Settled path c × AllSettled rest c

patch_all-Settled :
    (other : String) (ts : List (String × String)) (c : ProviderClient)
    → Settled other c
    → Settled other (patch_all ts c)
unfolding patch_all patch
patch_all-Settled other [] c h = h
patch_all-Settled other ((path, name) ∷ rest) c h =
    patch_all-Settled other rest _ (patch_found-Settled _ path name other (c.method path) c refl h)

patch_all-AllSettled :
    (ts : List (String × String)) (c : ProviderClient) → AllSettled ts (patch_all ts c)
unfolding patch_all patch
patch_all-AllSettled [] c = tt
patch_all-AllSettled ((path, name) ∷ rest) c = (
  patch_all-Settled path rest _ (patch_found-Settled_self _ path name (c.method path) c refl),
  patch_all-AllSettled rest (patch path name c),
)

patch_all-AllSettled_id :
    (ts : List (String × String)) (c : ProviderClient) → AllSettled ts c → patch_all ts c ≡ c
unfolding patch_all patch
patch_all-AllSettled_id [] c h = refl
patch_all-AllSettled_id ((path, name) ∷ rest) c (h, hs) =
    rw (patch_found-Settled_id _ path name (c.method path) c refl h)
      (patch_all-AllSettled_id rest c hs)

install_hook-AllSettled :
    (spec : HeaderSpec) (ts : List (String × String)) (c : ProviderClient)
    → AllSettled ts c
    → AllSettled ts (install_hook spec c)
unfolding Settled install_hook
install_hook-AllSettled spec [] c h = tt
install_hook-AllSettled spec (t ∷ ts) c (h, hs) = (h, install_hook-AllSettled spec ts c hs)

install_hook-twice :
    (spec : HeaderSpec) (c : ProviderClient)
    → install_hook spec (install_hook spec c) ≡ install_hook spec c
unfolding install_hook
install_hook-twice spec c =
    ap (λ (h : Option HttpClient). record c { http = h }) (install-twice spec spec c.http)

abbrev pub message_targets : List (String × String)
message_targets =
    ("messages.create", "anthropic.messages") ∷ ("messages.stream", "anthropic.messages") ∷ []

patch_messages-AllSettled :
    (c : ProviderClient) → AllSettled message_targets (patch_stream (patch_create c))
unfolding patch_stream patch_create
patch_messages-AllSettled c =
    let c' : ProviderClient = patch_create c in
    let m' : Option Method = c'.method "messages.stream" in
    (
      patch_found-Settled (λ a. stream_manager) "messages.stream" "anthropic.messages"
          "messages.create" m' c' refl
          (patch_found-Settled_self call_wrapper "messages.create" "anthropic.messages"
            (c.method "messages.create") c refl),
      (
        patch_found-Settled_self (λ a. stream_manager) "messages.stream" "anthropic.messages" m' c'
            refl,
        tt,
      ),
    )

patch_messages-id :
    (c : ProviderClient) → AllSettled message_targets c → patch_stream (patch_create c) ≡ c
unfolding patch_stream patch_create
patch_messages-id c (create, (stream, t)) =
    rw (patch_found-Settled_id _ "messages.create" "anthropic.messages" _ c refl create)
      (patch_found-Settled_id _ "messages.stream" "anthropic.messages" _ c refl stream)

-- Whatever a client looks like: after `wrap_openai`, each of its three target methods is a wrapper,
-- is not there, or cannot be set, and a second call changes nothing, neither a method nor a hook.
-- The same holds of `wrap_anthropic` and its two methods.
pub wrap-twice :
    (c : ProviderClient)
    → AllSettled targets (wrap_openai c)
      × (wrap_openai (wrap_openai c) ≡ wrap_openai c)
      × AllSettled message_targets (wrap_anthropic c)
      × (wrap_anthropic (wrap_anthropic c) ≡ wrap_anthropic c)
unfolding wrap_openai wrap_anthropic
wrap-twice c =
    let openai =
      install_hook-AllSettled openai_headers targets _ (patch_all-AllSettled targets c) in
    let anthropic =
      install_hook-AllSettled anthropic_headers message_targets _ (patch_messages-AllSettled c) in
    (
      openai,
      rw (patch_all-AllSettled_id targets _ openai) (install_hook-twice openai_headers _),
      anthropic,
      rw (patch_messages-id _ anthropic) (install_hook-twice anthropic_headers _),
    )

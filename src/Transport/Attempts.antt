-- ===== src/Transport/Attempts.antt =====
-- The hook of llm_metrics/integrations/_transport.py over all attempts of one provider call.
use llm_metrics.Prelude.{
  ℕ, ◌+◌, String, Bool, false, ◌||◌, Option, none, some, List, [], ◌∷◌, ◌++◌, ◌≡◌, refl, ◌∙◌,
  length, str_eq, arith,
}
use llm_metrics.Prelude.Int.{ℤ, pos, ◌+ℤ◌}
use llm_metrics.Value.{Value, int, Fields, end, field, put_field}
use llm_metrics.Models.{Observation}
use llm_metrics.Models.Wire.{get_field, get_field-put_field}
use llm_metrics.Sdk.{Sdk, modify_observation, set_observation, put_observation}
use llm_metrics.Duck.{as_int}
use llm_metrics.Transport.{
  HeaderSpec, Reply, Numbers, put_some, put_limits, record_reply, record_into, hook, attempts_read,
}

-- one of the keys that the hook writes
abbrev is_written : String → Bool
is_written k =
    str_eq "http_attempts" k
    || (str_eq "http_status" k
        || (str_eq "request_id" k || (str_eq "upstream_processing_ms" k || str_eq "rate_limit" k)))

get_field-put_some :
    (j k : String) (v : Option Value) (fs : Fields)
    → str_eq k j ≡ false
    → get_field j (put_some k v fs) ≡ get_field j fs
unfolding put_some
get_field-put_some j k none fs other = refl
get_field-put_some j k (some v) fs other = rw (get_field-put_field j k v fs, other)

get_field-put_limits :
    (j : String) (limits fs : Fields)
    → str_eq "rate_limit" j ≡ false
    → get_field j (put_limits limits fs) ≡ get_field j fs
unfolding put_limits
get_field-put_limits j end fs other = refl
get_field-put_limits j (field k v limits) fs other =
    rw (get_field-put_field j "rate_limit" _ fs, other)

module _ (n : Numbers) (spec : HeaderSpec) where
  record_reply-other :
      (j : String) (r : Reply) (before : ℤ) (fs : Fields)
      → str_eq "request_id" j ≡ false
      → str_eq "upstream_processing_ms" j ≡ false
      → str_eq "rate_limit" j ≡ false
      → get_field j (record_reply n spec r (some before) fs)
        ≡ get_field j (
            put_field "http_status"
              (int (pos r.status_code))
              (put_field "http_attempts" (int (before +ℤ pos 1)) fs))
  unfolding record_reply
  record_reply-other j r before fs h1 h2 h3 =
      get_field-put_limits j _ _ h3 ∙ get_field-put_some j _ _ _ h2 ∙ get_field-put_some j _ _ _ h1

  record_reply-counts :
      (r : Reply) (before : ℤ) (fs : Fields)
      → let out = record_reply n spec r (some before) fs in
        (get_field "http_attempts" out ≡ some (int (before +ℤ pos 1)))
        × (get_field "http_status" out ≡ some (int (pos r.status_code)))
  record_reply-counts r before fs = (
    record_reply-other "http_attempts" r before fs refl refl refl ∙ simp get_field-put_field,
    record_reply-other "http_status" r before fs refl refl refl ∙ simp get_field-put_field,
  )

  record_reply-frame :
      (j : String) (r : Reply) (before : Option ℤ) (fs : Fields)
      → is_written j ≡ false
      → get_field j (record_reply n spec r before fs) ≡ get_field j fs
  record_reply-frame j r none fs h = unfold record_reply in refl
  record_reply-frame j r (some before) fs h =
      record_reply-other j r before fs (ground arith) (ground arith) (ground arith)
      ∙ ground (
        arith,
        get_field-put_field j "http_status" (int (pos r.status_code))
            (put_field "http_attempts" (int (before +ℤ pos 1)) fs),
        get_field-put_field j "http_attempts" (int (before +ℤ pos 1)) fs,
      )

  -- the replies to the attempts of one call, the first one first
  pub record_all : List Reply → Fields → Fields
  record_all [] fs = fs
  record_all (r ∷ rs) fs = record_all rs (record_into n spec r fs)

  attempts_after : (k : ℕ) → pos k +ℤ pos 1 ≡ pos (k + 1)
  unfolding ◌+ℤ◌
  attempts_after k = ground arith

  abbrev Read : ℕ → Fields → Type 0
  Read k fs = attempts_read n (get_field "http_attempts" fs) ≡ some (pos k)

  record_into-counts :
      (r : Reply) (k : ℕ) (fs : Fields)
      → Read k fs
      → let out = record_into n spec r fs in
        (get_field "http_attempts" out ≡ some (int (pos (k + 1))))
        × (get_field "http_status" out ≡ some (int (pos r.status_code)))
  unfolding record_into
  record_into-counts r k fs h = rw (h, ← attempts_after k) (record_reply-counts r (pos k) fs)

  record_into-Read :
      (r : Reply) (k : ℕ) (fs : Fields) → Read k fs → Read (k + 1) (record_into n spec r fs)
  unfolding as_int
  record_into-Read r k fs h = rw ((record_into-counts r k fs h).0)

  record_all-counts :
      (rs : List Reply) (r : Reply) (k : ℕ) (fs : Fields)
      → Read k fs
      → let out = record_all (rs ++ r ∷ []) fs in
        (get_field "http_attempts" out ≡ some (int (pos (k + (length rs + 1)))))
        × (get_field "http_status" out ≡ some (int (pos r.status_code)))
  unfolding record_all
  record_all-counts [] r k fs h = record_into-counts r k fs h
  record_all-counts (q ∷ rs) r k fs h =
      let (count, status) =
        record_all-counts rs r (k + 1) (record_into n spec q fs) (record_into-Read q k fs h) in
      (ground (arith, count), status)

  record_all-frame :
      (rs : List Reply) (j : String) (fs : Fields)
      → is_written j ≡ false
      → get_field j (record_all rs fs) ≡ get_field j fs
  unfolding record_all record_into
  record_all-frame [] j fs h = refl
  record_all-frame (r ∷ rs) j fs h =
      record_all-frame rs j (record_into n spec r fs) h
      ∙ record_reply-frame j r (attempts_read n (get_field "http_attempts" fs)) fs h

  module _ {W : Type 0} where
    -- the hook fires for each reply of a call, by what `_ACTIVE` holds during the call
    pub hook_all : List Reply → Option ℕ → Sdk W → Sdk W
    hook_all [] active s = s
    hook_all (r ∷ rs) active s = hook_all rs active (hook n spec r active s)

    hook_all-record_all :
        (rs : List Reply) (o : ℕ) (s : Sdk W) (v : Observation)
        → s.observations o ≡ some v
        → (hook_all rs (some o) s).observations o
          ≡ some (record v { metadata = record_all rs v.metadata })
    unfolding hook_all record_all hook modify_observation set_observation put_observation
    hook_all-record_all [] o s v h = h
    hook_all-record_all (r ∷ rs) o s v h =
        hook_all-record_all rs o _ (record v { metadata = record_into n spec r v.metadata })
          (rw (h, set_observation) (ground arith))

    hook_all-none : (rs : List Reply) (s : Sdk W) → hook_all rs none s ≡ s
    unfolding hook_all hook
    hook_all-none [] s = refl
    hook_all-none (r ∷ rs) s = hook_all-none rs s

    -- However many attempts the provider's client makes within one call, and whatever the replies
    -- to them are: an active observation that had no count of attempts has the number of the
    -- replies as its `http_attempts`, the status of the last one as its `http_status`, every
    -- other entry of its metadata as it was, but for the three that come from headers, and no
    -- other field changed. With no active observation nothing changes at all.
    pub hook_all-Counted :
        (rs : List Reply) (r : Reply) (o : ℕ) (s : Sdk W) (v : Observation) (other : String)
        → s.observations o ≡ some v
        → get_field "http_attempts" v.metadata ≡ none
        → is_written other ≡ false
        → let out = record_all (rs ++ r ∷ []) v.metadata in
          ((hook_all (rs ++ r ∷ []) (some o) s).observations o ≡ some (record v { metadata = out }))
          × (get_field "http_attempts" out ≡ some (int (pos (length rs + 1))))
          × (get_field "http_status" out ≡ some (int (pos r.status_code)))
          × (get_field other out ≡ get_field other v.metadata)
          × (hook_all (rs ++ r ∷ []) none s ≡ s)
    hook_all-Counted rs r o s v other h fresh unwritten =
        let (count, status) = record_all-counts rs r 0 v.metadata (rw fresh) in
        (
          hook_all-record_all (rs ++ r ∷ []) o s v h,
          ground (arith, count),
          status,
          record_all-frame (rs ++ r ∷ []) other v.metadata unwritten,
          hook_all-none (rs ++ r ∷ []) s,
        )

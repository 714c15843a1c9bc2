-- ===== src/Backups/Chunks.antt =====
-- The loop over the chunks: when it returns, the destination has taken every one of them.
use doc_chat_template_scc.Common.{
  ℕ, zero, suc, ◌+◌, ◌<◌, ◌≡◌, Bool, true, false, Option, none, some, ap, ◌∙◌, Option-cases, List,
  String, inl, inr, arith, Bool-cases,
}
use doc_chat_template_scc.Common.Rows.{Elem}
use doc_chat_template_scc.Backups.Data.{
  Config, Action, Payload, Answer, Response, Event, called, Deps, World, ◌>>=◌, pure, raise, log,
  key,
}
use doc_chat_template_scc.Backups.Resolve.{to_answer, daemon_call, update_row, require_ok}
use doc_chat_template_scc.Backups.Transfer.{
  is_refusal, extra_of, accept_chunk, copy_chunk, copy_chunks,
}
use doc_chat_template_scc.Backups.Triples.{Triple, Triple-bind, Triple-Grows}
use doc_chat_template_scc.Backups.Effects.{
  Elem-append_left, Ensures, Ensures-bind, Ensures-first, Elem-append_last, Later, Grows,
  Grows-bind, Grows-pure, Grows-raise, Grows-key, Grows-if, Grows-update_row, Grows-daemon_call,
  Grows-require_ok,
}

-- the source was asked for the chunk, and answered with success and this content
abbrev pub IsRead : Config → String → ℕ → String → List Event → Type 0
IsRead src id i content events =
    (read : Response) × Elem (called src (Action.read_chunk id i) read) events
    × ((to_answer src read).success ≡ true)
    × ((to_answer src read).payload.content ≡ some content)

-- a manifest and a signature go with the first chunk, and with no other
abbrev pub IsExtra : ℕ → Option (String × String) → Type 0
IsExtra zero extra = (m : String) × (s : String) × (extra ≡ some (m, s))
IsExtra (suc i) extra = extra ≡ none

-- The destination was sent the content that the source gave for the chunk, and did not refuse it.
abbrev pub Stored : Config → Config → String → String → Bool → ℕ → List Event → Type 0
Stored src dest me id approved i events =
    (content : String) × (extra : Option (String × String)) × (r : Response) × IsRead src id i
      content events
    × IsExtra i extra
    × Elem (called dest (Action.write_chunk me id i content approved extra) r) events
    × (is_refusal approved (to_answer dest r).tier ≡ false)

pub Stored-Later :
    (src dest : Config) (me id : String) (approved : Bool) (i : ℕ) (v w : World)
    → Later v w
    → Stored src dest me id approved i v.events
    → Stored src dest me id approved i w.events
Stored-Later src dest me id approved i v w later
      (content, extra, r, (read, n, good, is_content), first_only, m, fine) =
    (content, extra, r, (read, later _ n, good, is_content), first_only, later _ m, fine)

module _ (deps : Deps) (src dest : Config) (me id : String) (approved : Bool) (status : Payload)
    (label : String) where
  pub Grows-extra_of : (i : ℕ) → Grows (extra_of deps i status)
  Grows-extra_of zero =
      Grows-bind _ _ (Grows-key _) (λ m. Grows-bind _ _ (Grows-key _) (λ s. Grows-pure _))
  Grows-extra_of (suc i) = Grows-pure _

  Grows-accept_chunk : (i : ℕ) (a : Answer) → Grows (accept_chunk deps approved id i label a)
  unfolding accept_chunk
  Grows-accept_chunk i a =
      Grows-if (is_refusal approved a.tier) _ _ (Grows-raise _) (Grows-update_row _ _)

  Grows-copy_chunk : (i : ℕ) → Grows (copy_chunk deps src dest me id approved status label i)
  unfolding copy_chunk
  Grows-copy_chunk i = Grows-bind _ _ (Grows-daemon_call deps src _) λ r.
      Grows-bind _ _ (Grows-require_ok _ r) λ chunk. Grows-bind _ _ (Grows-extra_of i) λ extra.
        Grows-bind _ _ (Grows-key _)
          λ content. Grows-bind _ _ (Grows-daemon_call deps dest _) λ a. Grows-accept_chunk i a

  pub Grows-copy_chunks :
      (n i : ℕ) → Grows (copy_chunks deps n i src dest me id approved status label)
  unfolding copy_chunks
  Grows-copy_chunks zero i = Grows-pure _
  Grows-copy_chunks (suc n) i =
      Grows-bind _ _ (Grows-copy_chunk i) (λ u. Grows-copy_chunks n (suc i))

  -- the source has answered with the payload
  abbrev Answered : ℕ → Payload → World → Type 0
  Answered i p w =
      (read : Response) × Elem (called src (Action.read_chunk id i) read) w.events
      × ((to_answer src read).success ≡ true)
      × ((to_answer src read).payload ≡ p)

  abbrev Asked : ℕ → Answer → World → Type 0
  Asked i a w =
      (read : Response) × Elem (called src (Action.read_chunk id i) read) w.events
      × (to_answer src read ≡ a)

  daemon_call-Asked :
      (i : ℕ) → Triple (λ w. Unit) (daemon_call deps src (Action.read_chunk id i)) (Asked i)
  unfolding daemon_call ◌>>=◌ log pure
  daemon_call-Asked i = record {
    at = λ w a _ h.
        (deps.daemon w.events src (Action.read_chunk id i), Elem-append_last _ w.events, cc);
  }

  require_ok-Answered :
      (i : ℕ) (a : Answer) → Triple (Asked i a) (require_ok "reading" a) (Answered i)
  unfolding require_ok pure raise
  require_ok-Answered i a = record {
    at = λ w p (read, m, same) h. elim (Bool-cases a.success) [
      | inl e ↦
          let q = rw e at h in
          let is_payload : a.payload ≡ p = cc in
          rw e (read, m, ap (λ z. z.success) same ∙ e, ap (λ z. z.payload) same ∙ is_payload)
      | inr e ↦ let q = rw e at h in absurd (cc)
    ];
  }

  extra_of-IsExtra :
      (i : ℕ) (p : Payload)
      → Triple (Answered i p) (extra_of deps i status) (λ x w. Answered i p w × IsExtra i x)
  unfolding pure
  extra_of-IsExtra zero p =
      Triple-bind _ _
        (Triple-Grows _ (λ w v later (r, m, g, q). (r, later _ m, g, q)) (Grows-key _))
        λ m.
          Triple-bind _ _
            (Triple-Grows _ (λ w v later (r, k, g, q). (r, later _ k, g, q)) (Grows-key _))
            λ s. record { at = λ w x a h. (a, (m, s, cc)) }
  extra_of-IsExtra (suc i) p = record { at = λ w x a h. (a, cc) }

  key-IsRead :
      (i : ℕ) (p : Payload) (extra : Option (String × String))
      → Triple
          (λ w. Answered i p w × IsExtra i extra)
          (key p.content)
          (λ content w. IsRead src id i content w.events × IsExtra i extra)
  unfolding key
  key-IsRead i p extra = record {
    at = λ w content ((read, m, good, same), x) h. elim (Option-cases p.content) [
      | inl e ↦ let q = rw e at h in absurd (cc)
      | inr (c, e) ↦
          let q = rw e at h in
          let is_content : p.content ≡ some content = cc in
          rw e ((read, m, good, ap (λ z. z.content) same ∙ is_content), x)
    ];
  }

  -- the end of a round: the chunk is sent and the answer is looked at
  send_chunk-Stored :
      (i : ℕ) (content : String) (extra : Option (String × String))
      → Triple
          (λ w. IsRead src id i content w.events × IsExtra i extra)
          (daemon_call deps dest (Action.write_chunk me id i content approved extra)
            >>= accept_chunk deps approved id i label)
          (λ u v. Stored src dest me id approved i v.events)
  unfolding daemon_call accept_chunk update_row ◌>>=◌ log pure raise
  send_chunk-Stored i content extra = record {
    at = λ w u ((read, m, good, is_content), x) h.
        let act = Action.write_chunk me id i content approved extra in
        let r = deps.daemon w.events dest act in
        elim (Bool-cases (is_refusal approved (to_answer dest r).tier)) [
          | inl e ↦ let q = rw e at h in absurd (cc)
          | inr e ↦ rw e (
            content,
            extra,
            r,
            (read, Elem-append_left _ w.events _ m, good, is_content),
            x,
            Elem-append_last _ w.events,
            e,
          )
        ];
  }

  copy_chunk-Stored :
      (i : ℕ)
      → Ensures
          (λ v. Stored src dest me id approved i v.events)
          (copy_chunk deps src dest me id approved status label i)
  unfolding copy_chunk
  copy_chunk-Stored i = record {
    at = λ w u h.
        (Triple-bind _ _ (daemon_call-Asked i) λ r.
            Triple-bind _ _ (require_ok-Answered i r) λ chunk.
              Triple-bind _ _ (extra_of-IsExtra i chunk) λ extra.
                Triple-bind _ _ (key-IsRead i chunk extra)
                  λ content. send_chunk-Stored i content extra).at
          w u tt h;
  }

  -- Where the loop over `n` chunks returns, the destination has taken each of them.
  pub copy_chunks-Stored :
      (n i j : ℕ)
      → j < n
      → Ensures
          (λ v. Stored src dest me id approved (i + j) v.events)
          (copy_chunks deps n i src dest me id approved status label)
  unfolding copy_chunks
  copy_chunks-Stored zero i j h = absurd (omega arith)
  copy_chunks-Stored (suc n) i zero h =
      let e : i + 0 ≡ i = omega arith in
      rw e (
        Ensures-first _ _ (λ w v. Stored-Later src dest me id approved i w v) (copy_chunk-Stored i)
          (λ u. Grows-copy_chunks n (suc i)))
  copy_chunks-Stored (suc n) i (suc j) h =
      let e : i + suc j ≡ suc i + j = omega arith in
      rw e (Ensures-bind _ _ (λ u. copy_chunks-Stored n (suc i) j (omega arith)))

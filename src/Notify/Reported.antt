-- ===== src/Notify/Reported.antt =====
-- What a report sends.
use vps_sync_gsbs.Base.{
  ℕ, Bool, true, false, ◌≡◌, refl, sym, subst, ap, ◌∙◌, Option, none, some, List, [], ◌∷◌, ◌++◌,
  arith, append_assoc, append-nil, All, ◌⊎◌, inl, inr, Bool-cases, if◌then◌else◌,
}
use vps_sync_gsbs.Base.Int.{ℤ}
use vps_sync_gsbs.Text.{Text, text, is_empty}
use vps_sync_gsbs.Text.Strings.{trim_space}
use vps_sync_gsbs.Exec.{Error, ok, pure}
use vps_sync_gsbs.Exec.Errorless.{Errorless, errorless}
use vps_sync_gsbs.Outside.{Outside}
use vps_sync_gsbs.World.{World}
use vps_sync_gsbs.Fetch.{failed, message_of}
use vps_sync_gsbs.Notify.{
  headline, warning_mark, with_warnings, post, deliver, send, run_result, duration, round_seconds,
}

-- `t` stands in `m`.
abbrev pub Within : Text → Text → Type 0
Within t m = (before : Text) × (after : Text) × (m ≡ before ++ (t ++ after))

-- The text that is sent tells of the error and of every warning.
pub record Tells (message : Text) (warnings : List Text) (e : Option Error) : Type 0 where
  pub of_error : (x : Error) → e ≡ some x → Within x.message message
  pub of_warnings : All (λ t. Within t message) warnings

-- Whether a report goes out at a time.
abbrev pub reachable : Outside → Text → ℕ → Bool
reachable o url n =
    if is_empty (trim_space url)
    then false
    else if failed (o.new_request (trim_space url))
    then false
    else o.sends (trim_space url) n

module _ {o : Outside} where
  post-Errorless : (url payload : Text) → Errorless {S = World o} (post url payload)
  unfolding post pure
  post-Errorless url payload = record { at = λ w e h. ground (arith, h) }

  pub run_result-Errorless :
      (url cmd : Text) (elapsed : ℕ) (version : ℤ) (ws : List Text) (e : Option Error)
      → Errorless {S = World o} (run_result url cmd elapsed version ws e)
  unfolding run_result send deliver
  run_result-Errorless url cmd elapsed version ws e = search (errorless, post-Errorless)

-- Text behind a message leaves in place what stands in it.
Within-append : (t m u : Text) → Within t m → Within t (m ++ u)
Within-append t m u (before, after, e) =
    (before, after ++ u, ap (λ m. m ++ u) e ∙ rw (append_assoc, append_assoc) refl)

Within-prepend : (t p m : Text) → Within t m → Within t (p ++ m)
Within-prepend t p m (before, after, e) =
    (p ++ before, after, ap (λ m. p ++ m) e ∙ sym (append_assoc p before (t ++ after)))

Within-self : (t : Text) → Within t t
Within-self t = ([], [], sym (append-nil t))

-- The messages that are in a text, and those that are appended, are in the whole.
with_warnings-Within : (ws : List Text) (t m : Text) → Within t m → Within t (with_warnings m ws)
unfolding with_warnings
with_warnings-Within [] t m h = h
with_warnings-Within (w ∷ ws) t m h =
    with_warnings-Within ws t (m ++ (warning_mark ++ w)) (Within-append t m (warning_mark ++ w) h)

with_warnings-All : (ws : List Text) (m : Text) → All (λ t. Within t (with_warnings m ws)) ws
unfolding with_warnings
with_warnings-All [] m = tt
with_warnings-All (w ∷ ws) m = (
  with_warnings-Within ws w (m ++ (warning_mark ++ w))
      (Within-prepend w m (warning_mark ++ w) (Within-prepend w warning_mark w (Within-self w))),
  with_warnings-All ws (m ++ (warning_mark ++ w)),
)

headline-error :
    (cmd : Text) (elapsed : ℕ) (version : ℤ) (e : Option Error) (x : Error)
    → e ≡ some x
    → Within x.message (headline cmd elapsed version e)
unfolding headline
headline-error cmd elapsed version none x h = absurd (ground (arith, h))
headline-error cmd elapsed version (some y) x h = Within-prepend _ (text "❌ vps-sync ") _ (
    Within-prepend _ cmd _ (
      Within-prepend _ (text " failed after ") _ (
        Within-prepend _ (duration (round_seconds elapsed)) _ (
          Within-prepend _ (text ": ") _
            (subst (λ m. Within x.message m) (ap message_of (sym h)) (Within-self x.message))))))

-- What is sent for the outcome of a run.
abbrev pub message_of_run : Text → ℕ → ℤ → List Text → Option Error → Text
message_of_run cmd elapsed version ws e = with_warnings (headline cmd elapsed version e) ws

message-Tells :
    (cmd : Text) (elapsed : ℕ) (version : ℤ) (ws : List Text) (e : Option Error)
    → Tells (message_of_run cmd elapsed version ws e) ws e
message-Tells cmd elapsed version ws e = record {
  of_error = λ x h.
      with_warnings-Within ws x.message (headline cmd elapsed version e)
        (headline-error cmd elapsed version e x h);
  of_warnings = with_warnings-All ws (headline cmd elapsed version e);
}

-- A report never fails and changes nothing but what was sent. Where the webhook is not set or is no
-- URL, or the client fails before it has sent the request, nothing is sent; otherwise one request goes
-- out, and its text, under both keys, tells of the run's error, if there is one, and of every warning.
pub run_result-Tells :
    (o : Outside) (url cmd : Text) (elapsed : ℕ) (version : ℤ) (ws : List Text) (e : Option Error)
    (w : World o)
    → ((reachable o url w.ticks ≡ false) × (run_result url cmd elapsed version ws e w ≡ (ok tt, w)))
      ⊎ ((reachable o url w.ticks ≡ true)
          × ((message : Text) × Tells message ws e
              × (run_result url cmd elapsed version ws e w ≡ (
                ok tt,
                record w {
                  posts =
                      (
                        trim_space url,
                        o.marshal_strings ((text "content", message) ∷ (text "text", message) ∷ []),
                      )
                      ∷ w.posts;
                },
              ))))
unfolding run_result send deliver post pure
run_result-Tells o url cmd elapsed version ws e w = elim (Bool-cases (is_empty (trim_space url))) [
  | inl unset ↦ inl (rw unset (refl, refl))
  | inr given ↦ elim (Bool-cases (failed (o.new_request (trim_space url)))) [
    | inl bad ↦ inl (rw (given, bad) (refl, refl))
    | inr good ↦ elim (Bool-cases (o.sends (trim_space url) w.ticks)) [
      | inl sent ↦ inr (
          rw (given, good, sent)
            (
              refl,
              (
                message_of_run cmd elapsed version ws e,
                message-Tells cmd elapsed version ws e,
                refl,
              ),
            ))
      | inr unsent ↦ inl (rw (given, good, unsent) (refl, refl))
    ]
  ]
]

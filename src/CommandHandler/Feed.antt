-- ===== src/CommandHandler/Feed.antt =====
-- What a call of `feedAndParseCommand` leaves, on each of its branches.
use boostcache.Prelude.{
  ◌≡◌, refl, ◌∙◌, ap, true, false, some, List, [], ◌∷◌, ◌⊎◌, inl, inr, Option-cases, arith, length,
  ◌%◌, ◌^◌, subst,
}
use boostcache.Wire.{Bytes}
use boostcache.CommandHandler.State.{Handler, initial}
use boostcache.CommandHandler.Invariant.{IsValid, parse_command-Outcome}
use boostcache.CommandHandler.{
  Executor, Fed, finish_feed, parse_command, execute_command, feed_and_parse_command,
}

module _ {C : Type 0} (e : Executor C) where
  -- Either more data is asked for: nothing was called, and the handler is valid. Or one command
  -- was called, the one that was parsed, it has one reply, and the handler is as new.
  abbrev pub FedOutcome : C → Handler → Bytes → Fed C → Type 0
  FedOutcome c h buffer r =
      ((r.more ≡ true)
        × (r.replies ≡ [])
        × (r.commands ≡ c)
        × IsValid r.handler
        × (parse_command h buffer ≡ some (r.handler, false)))
      ⊎ ((r.more ≡ false)
          × (r.handler ≡ initial)
          × ((name : Bytes) × (args : List Bytes) × (reply : Bytes) × (r.replies ≡ reply ∷ [])
              × (e.find_and_call c name (length args % 2 ^ 32) (name ∷ args)
                  ≡ some (r.commands, reply))
              × ((h' : Handler) × (parse_command h buffer ≡ some (h', true))
                  × (h'.command_arguments ≡ name ∷ args))))

  execute_FedOutcome :
      (c : C) (h : Handler) (buffer : Bytes) (h' : Handler) (args : List Bytes) (r : Fed C)
      → parse_command h buffer ≡ some (h', true)
      → h'.command_arguments ≡ args
      → finish_feed e c h' true ≡ some r
      → FedOutcome c h buffer r
  unfolding execute_command
  execute_FedOutcome c h buffer h' [] r parsed same run = absurd (ground arith)
  execute_FedOutcome c h buffer h' (name ∷ args) r parsed same run =
      elim (Option-cases (e.find_and_call c name (length args % 2 ^ 32) (name ∷ args))) [
        | inl none_ ↦ absurd (ground arith)
        | inr ((c', reply), called) ↦ inr (
          ground arith,
          ground arith,
          (name, args, reply, ground arith, ground arith, (h', parsed, same)),
        )
      ]

  -- Every call that is defined, on a valid handler, has one of the two outcomes.
  pub feed-FedOutcome :
      (c : C) (h : Handler) (buffer : Bytes) (r : Fed C)
      → IsValid h
      → feed_and_parse_command e c h buffer ≡ some r
      → FedOutcome c h buffer r
  unfolding feed_and_parse_command
  feed-FedOutcome c h buffer r v run = elim (Option-cases (parse_command h buffer)) [
    | inl undefined ↦ absurd (ground arith)
    | inr ((h', true), parsed) ↦
        execute_FedOutcome c h buffer h' h'.command_arguments r parsed refl (ground arith)
    | inr ((h', false), parsed) ↦
        let valid : IsValid h' = parse_command-Outcome h buffer h' false v parsed in
        let stay : h' ≡ r.handler = ground arith in
        inl (
          ground arith,
          ground arith,
          ground arith,
          subst IsValid stay valid,
          parsed ∙ ap (λ g. some (g, false)) stay,
        )
  ]

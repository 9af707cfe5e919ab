-- ===== src/Persistent/History.antt =====
-- The checkpoints that are remembered, over any sequence of calls.
use mathlib.Core.List.{append_assoc, append-nil}
use hft_radial_cache.Common.{
  ℕ, zero, suc, ◌-◌, ◌≡◌, refl, sym, ap, ◌∙◌, Bool, true, false, Bool-cases, inl, inr, Option-cases,
  List, [], ◌∷◌, ◌++◌, ltb, if◌then◌else◌, length, length-append, drop, subst, arith,
}
use hft_radial_cache.Common.Bytes.{Bytes}
use hft_radial_cache.Persistent.{
  CheckpointMetadata, PersistentCache, Files, new, trim, max_checkpoint_history, chosen_name,
  generate_incremental_filename, perform_checkpoint, checkpoint_to_disk, incremental_checkpoint,
  delete_checkpoint, list_checkpoints, record_node_modification,
}

trim-append :
    (past : List CheckpointMetadata) (next : CheckpointMetadata)
    → trim (trim past ++ next ∷ []) ≡ trim (past ++ next ∷ [])
unfolding trim
trim-append [] next = refl
trim-append (oldest ∷ past) next =
    elim (Bool-cases (ltb max_checkpoint_history (length (oldest ∷ past)))) [
      | inl long ↦ rw long (ground (arith, trim-append past next, length-append past (next ∷ [])))
      | inr short ↦ rw short refl
    ]

-- The last ten.
abbrev pub last_ten : List CheckpointMetadata → List CheckpointMetadata
last_ten past = drop (length past - 10) past

trim-last_ten : (past : List CheckpointMetadata) → trim past ≡ last_ten past
unfolding trim
trim-last_ten [] = refl
trim-last_ten (oldest ∷ past) =
    elim (Bool-cases (ltb max_checkpoint_history (length (oldest ∷ past)))) [
      | inl long ↦
          let more : length (oldest ∷ past) - 10 ≡ suc (length past - 10) = ground arith in
          rw (long, more) (trim-last_ten past)
      | inr short ↦
          let whole : length (oldest ∷ past) - 10 ≡ zero = ground arith in rw (short, whole) refl
    ]

-- The calls that change the cache, each with the clock and with what the file system answers.
pub data Call : Type 0 where
  checkpoints : Bytes → Bool → ℕ → ℕ → ℕ → Call
  increments : Bool → ℕ → ℕ → ℕ → Call
  deletes : Bytes → Bool → Call
  modifies : ℕ → Bytes → Call

module _ (join : Bytes → Bytes → Bytes) (to_string : ℕ → Bytes) (resolve : Bytes → Bytes) where
  pub call : PersistentCache → Call → PersistentCache
  call c (checkpoints filename opens named written now) =
      (checkpoint_to_disk join to_string resolve c filename opens named written now).0
  call c (increments opens named written now) =
      (incremental_checkpoint join to_string resolve c opens named written now).0
  call c (deletes filename removed) =
      (delete_checkpoint join to_string resolve c filename removed).0
  call c (modifies timestamp node_id) = record_node_modification c timestamp node_id

  unfoldable pub run : PersistentCache → List Call → PersistentCache
  unfolding call
  run c [] = c
  run c (first ∷ calls) = run (call c first) calls

  -- The checkpoint that a call makes, if its file opens.
  abbrev pub made_by : Call → List CheckpointMetadata
  made_by (checkpoints filename opens named written now) =
      if opens
      then record {
        timestamp = now;
        filename = chosen_name join to_string resolve filename named;
        is_incremental = false;
      }
        ∷ []
      else []
  made_by (increments opens named written now) =
      if opens
      then record {
        timestamp = now;
        filename = generate_incremental_filename join to_string resolve named;
        is_incremental = true;
      }
        ∷ []
      else []
  made_by (deletes filename removed) = []
  made_by (modifies timestamp node_id) = []

  abbrev pub made : List Call → List CheckpointMetadata
  made [] = []
  made (first ∷ calls) = made_by first ++ made calls

  -- No checkpoint is under way, and the history is the last ten of those made.
  pub record Remembers (past : List CheckpointMetadata) (c : PersistentCache) : Type 0 where
    pub idle : c.checkpoint_in_progress ≡ false
    pub newest : c.checkpoint_history ≡ trim past

  perform-Remembers :
      (past : List CheckpointMetadata) (c : PersistentCache) (filename : Bytes)
      (incremental opens : Bool) (written now : ℕ)
      → Remembers past c
      → Remembers
          (past
            ++ (if opens
                then record { timestamp = now; filename = filename; is_incremental = incremental }
                  ∷ []
                else []))
          ((perform_checkpoint join to_string resolve c filename incremental opens written now).0)
  unfolding perform_checkpoint
  perform-Remembers past c filename incremental false written now h = record {
    idle = refl;
    newest = h.newest ∙ ap trim (sym (append-nil past));
  }
  perform-Remembers past c filename incremental true written now h =
      let next : CheckpointMetadata = record {
        timestamp = now;
        filename = filename;
        is_incremental = incremental;
      } in
      record {
        idle = refl;
        newest = ap (λ p. trim (p ++ next ∷ [])) h.newest ∙ trim-append past next;
      }

  delete_kept :
      (c : PersistentCache) (filename : Bytes) (removed : Bool)
      → ((delete_checkpoint join to_string resolve c filename removed).0.checkpoint_history
          ≡ c.checkpoint_history)
        × ((delete_checkpoint join to_string resolve c filename removed).0.checkpoint_in_progress
            ≡ c.checkpoint_in_progress)
  unfolding delete_checkpoint
  delete_kept c filename true =
      elim (Option-cases (c.files (resolve (join c.checkpoint_dir filename)))) [
        | inl e ↦ rw (e, delete_checkpoint) (refl, refl)
        | inr (content, e) ↦ rw (e, delete_checkpoint) (refl, refl)
      ]
  delete_kept c filename false =
      elim (Option-cases (c.files (resolve (join c.checkpoint_dir filename)))) [
        | inl e ↦ rw (e, delete_checkpoint) (refl, refl)
        | inr (content, e) ↦ rw (e, delete_checkpoint) (refl, refl)
      ]

  call-Remembers :
      (past : List CheckpointMetadata) (c : PersistentCache) (first : Call)
      → Remembers past c
      → Remembers (past ++ made_by first) (call c first)
  unfolding call checkpoint_to_disk incremental_checkpoint record_node_modification
  call-Remembers past c (checkpoints filename opens named written now) h = rw h.idle (
      perform-Remembers past c (chosen_name join to_string resolve filename named) false opens
        written now h)
  call-Remembers past c (increments opens named written now) h = rw h.idle (
      perform-Remembers past c (generate_incremental_filename join to_string resolve named) true
        opens written now h)
  call-Remembers past c (deletes filename removed) h = record {
    idle = (delete_kept c filename removed).1 ∙ h.idle;
    newest = (delete_kept c filename removed).0 ∙ (h.newest ∙ ap trim (sym (append-nil past)));
  }
  call-Remembers past c (modifies timestamp node_id) h = record {
    idle = h.idle;
    newest = h.newest ∙ ap trim (sym (append-nil past));
  }

  run-Remembers :
      (past : List CheckpointMetadata) (c : PersistentCache) (calls : List Call)
      → Remembers past c
      → Remembers (past ++ made calls) (run c calls)
  unfolding run
  run-Remembers past c [] h = record {
    idle = h.idle;
    newest = h.newest ∙ ap trim (sym (append-nil past));
  }
  run-Remembers past c (first ∷ calls) h =
      subst (λ p. Remembers p (run (call c first) calls))
        (append_assoc past (made_by first) (made calls))
        (run-Remembers (past ++ made_by first) (call c first) calls (call-Remembers past c first h))

  -- After any sequence of calls from the start, list_checkpoints gives exactly the last ten of the
  -- checkpoints whose file opened, in their order; failed ones, deletions and modifications leave
  -- it as it is, and no checkpoint is left marked as under way.
  pub run-last_ten :
      (checkpoint_dir : Bytes) (files : Files) (calls : List Call)
      → (list_checkpoints (run (new checkpoint_dir files) calls) ≡ last_ten (made calls))
        × ((run (new checkpoint_dir files) calls).checkpoint_in_progress ≡ false)
  unfolding list_checkpoints new trim
  run-last_ten checkpoint_dir files calls =
      let h =
        run-Remembers [] (new checkpoint_dir files) calls (record { idle = refl; newest = refl }) in
      (h.newest ∙ trim-last_ten (made calls), h.idle)

-- ===== src/Admin/Terminal/Kept.antt =====
-- What the operations of the web terminal keep: that the users of the sessions, and of what has
-- reached a program, are all of one kind (backend/src/admin/terminal/terminal.service.ts).
use parking_gate_remote.Common.{
  ℕ, suc, String, ℤ, pos, Bool, true, false, Option, none, some, List, [], ◌∷◌, inl, inr,
  Option-cases, ◌&&◌, if◌then◌else◌, arith, All, not, if-holds,
}
use parking_gate_remote.Common.Assoc.{
  lookup, insert, delete, string_eq, Values, Values-insert, Values-delete, Values-lookup,
}
use parking_gate_remote.Common.Json.{Json, text}
use parking_gate_remote.Admin.Terminal.{
  TerminalSession, Terminals, KeyFile, create_terminal, write_to_terminal, resize_terminal,
  destroy_terminal, cleanup_entries, with_activity, is_inactive, command_args, key_path, is_present,
  new_session,
}
use parking_gate_remote.Admin.Terminal.Gateway.{
  check_client, on_checked, put_input, handle_terminal_input, put_size, handle_terminal_resize,
}

module _ (P : String → Type 0) where
  -- `P` holds of the user of each session and of each that has typed or resized.
  abbrev pub OnlyUsers : Terminals → Type 0
  OnlyUsers t =
      Values (λ s. P s.user_id) t.sessions × All (λ w. P w.0) t.written × All (λ w. P w.0) t.sizes

  pub create_terminal-OnlyUsers :
      (f : KeyFile) (spawns : List String → Bool) (session_id user_id : String) (now : ℕ)
      (t : Terminals)
      → P user_id
      → OnlyUsers t
      → OnlyUsers (create_terminal f spawns session_id user_id now t).1
  unfolding create_terminal
  create_terminal-OnlyUsers f spawns session_id user_id now t p (k, w, z) =
      let made =
        Values-insert (λ s. P s.user_id) session_id (new_session user_id now) t.sessions p k in
      let path = key_path f t.ssh_key_path in
      let failed = record t { ssh_key_path = some path } in
      let done = record failed {
        sessions = insert session_id (new_session user_id now) t.sessions;
      } in
      if-holds (λ (r : Bool × Terminals). OnlyUsers r.1) (is_present (lookup session_id t.sessions))
        (false, t) (if spawns (command_args path) then (false, done) else (true, failed)) (k, w, z)
        (if-holds (λ (r : Bool × Terminals). OnlyUsers r.1) (spawns (command_args path))
          (false, done) (true, failed) (made, w, z) (k, w, z))

  pub write_to_terminal-OnlyUsers :
      (broken : Bool) (id typed : String) (now : ℕ) (t : Terminals)
      → OnlyUsers t
      → OnlyUsers (write_to_terminal broken id typed now t)
  unfolding write_to_terminal
  write_to_terminal-OnlyUsers broken id typed now t (k, w, z) =
      elim (Option-cases (lookup id t.sessions)) [
        | inl h ↦ ground (arith, h)
        | inr (s, h) ↦
            let p = Values-lookup (λ s. P s.user_id) id t.sessions s k h in
            ground (
              arith,
              h,
              p,
              Values-insert (λ s. P s.user_id) id (with_activity now s) t.sessions p k,
            )
      ]

  pub resize_terminal-OnlyUsers :
      (broken : Bool) (id : String) (cols rows now : ℕ) (t : Terminals)
      → OnlyUsers t
      → OnlyUsers (resize_terminal broken id cols rows now t)
  unfolding resize_terminal
  resize_terminal-OnlyUsers broken id cols rows now t (k, w, z) =
      elim (Option-cases (lookup id t.sessions)) [
        | inl h ↦ ground (arith, h)
        | inr (s, h) ↦
            let p = Values-lookup (λ s. P s.user_id) id t.sessions s k h in
            ground (
              arith,
              h,
              p,
              Values-insert (λ s. P s.user_id) id (with_activity now s) t.sessions p k,
            )
      ]

  pub destroy_terminal-OnlyUsers :
      (unkillable : String → Bool) (id : String) (t : Terminals)
      → OnlyUsers t
      → OnlyUsers (destroy_terminal unkillable id t)
  unfolding destroy_terminal
  destroy_terminal-OnlyUsers unkillable id t (k, w, z) =
      if-holds OnlyUsers (is_present (lookup id t.sessions) && not (unkillable id))
        (record t { sessions = delete id t.sessions }) t
        (Values-delete (λ s. P s.user_id) id t.sessions k, w, z) (k, w, z)

  pub cleanup_entries-OnlyUsers :
      (unkillable : String → Bool) (max_minutes now : ℕ) (ss : List (String × TerminalSession))
      (t : Terminals)
      → OnlyUsers t
      → OnlyUsers (cleanup_entries unkillable max_minutes now ss t)
  unfolding cleanup_entries
  cleanup_entries-OnlyUsers unkillable max_minutes now [] t k = k
  cleanup_entries-OnlyUsers unkillable max_minutes now ((id, s) ∷ ss) t k =
      cleanup_entries-OnlyUsers unkillable max_minutes now ss
        (if is_inactive max_minutes now s then destroy_terminal unkillable id t else t)
        (if-holds OnlyUsers (is_inactive max_minutes now s) (destroy_terminal unkillable id t) t
          (destroy_terminal-OnlyUsers unkillable id t k) k)

module _ (P : String → Type 0) where
  pub on_checked-OnlyUsers :
      (c : Option String) (r : Option String × Terminals) (t : Terminals)
      → OnlyUsers P r.1
      → OnlyUsers P t
      → OnlyUsers P (on_checked c r t).1
  on_checked-OnlyUsers none r t h k = h
  on_checked-OnlyUsers (some message) r t h k = k

  pub put_input-OnlyUsers :
      (broken : Bool) (id : String) (field : Option Json) (now : ℕ) (t : Terminals)
      → OnlyUsers P t
      → OnlyUsers P (put_input broken id field now t).1
  put_input-OnlyUsers broken id (some (text s)) now t k =
      write_to_terminal-OnlyUsers P broken id s now t k
  put_input-OnlyUsers broken id _ now t k = k

  pub handle_terminal_input-OnlyUsers :
      (broken : Bool) (id : String) (field : Option Json) (now : ℕ) (t : Terminals)
      → OnlyUsers P t
      → OnlyUsers P (handle_terminal_input broken id field now t).1
  unfolding handle_terminal_input
  handle_terminal_input-OnlyUsers broken id field now t k =
      on_checked-OnlyUsers (check_client (lookup id t.clients)) (put_input broken id field now t) t
        (put_input-OnlyUsers broken id field now t k) k

  pub put_size-OnlyUsers :
      (broken : Bool) (id : String) (cols rows : Option ℤ) (now : ℕ) (t : Terminals)
      → OnlyUsers P t
      → OnlyUsers P (put_size broken id cols rows now t).1
  put_size-OnlyUsers broken id (some (pos (suc cols))) (some (pos (suc rows))) now t k =
      resize_terminal-OnlyUsers P broken id (suc cols) (suc rows) now t k
  put_size-OnlyUsers broken id _ _ now t k = k

  pub handle_terminal_resize-OnlyUsers :
      (broken : Bool) (id : String) (cols rows : Option ℤ) (now : ℕ) (t : Terminals)
      → OnlyUsers P t
      → OnlyUsers P (handle_terminal_resize broken id cols rows now t).1
  unfolding handle_terminal_resize
  handle_terminal_resize-OnlyUsers broken id cols rows now t k =
      on_checked-OnlyUsers (check_client (lookup id t.clients)) (put_size broken id cols rows now t)
        t (put_size-OnlyUsers broken id cols rows now t k) k

module _ (P Q : String → Type 0) (imp : (u : String) → P u → Q u) where
  Values-weaken :
      (ss : List (String × TerminalSession))
      → Values (λ s. P s.user_id) ss
      → Values (λ s. Q s.user_id) ss
  Values-weaken [] k = tt
  Values-weaken ((id, s) ∷ ss) (p, k) = (imp s.user_id p, Values-weaken ss k)

  All-weaken : {X : Type 0} (ws : List (String × X)) → All (λ w. P w.0) ws → All (λ w. Q w.0) ws
  All-weaken [] k = tt
  All-weaken (w ∷ ws) (p, k) = (imp w.0 p, All-weaken ws k)

  pub OnlyUsers-weaken : (t : Terminals) → OnlyUsers P t → OnlyUsers Q t
  OnlyUsers-weaken t (k, w, z) =
      (Values-weaken t.sessions k, All-weaken t.written w, All-weaken t.sizes z)

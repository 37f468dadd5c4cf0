-- ===== src/Wifi/Packed.antt =====
-- A batch that is packed from commands executes these.
use mathlib.Core.List.{append-nil}
use esp32_daplink.Base.{
  ◌+◌, sym, leb, if_elim, map, ℕ, suc, ◌<◌, ◌≡◌, refl, ap, ◌∙◌, ◌==◌, ltb, ◌||◌, false,
  if◌then◌else◌, Option, none, some, List, [], ◌∷◌, ◌++◌, length, take, drop, length-append,
  take-length, drop-length, arith,
}
use esp32_daplink.Swd.Wire.{Target}
use esp32_daplink.Dap.Misc.{Levels}
use esp32_daplink.Dap.Process.{Session}
use esp32_daplink.Wifi.{Link, client}
use esp32_daplink.Wifi.Commands.{Command, command_bytes, IsCommand, command-sized, command-filled}
use esp32_daplink.Wifi.Size.{dap_request_size, dap_request_size-append}
use esp32_daplink.Wifi.Batch.{put_reply, execute_one, execute}
use esp32_daplink.Wifi.Handlers.{send_all, el_process_execute_commands}

-- Every command has a size that is known, and is as long as that.
abbrev AllSized : List (List ℕ) → Type 0
AllSized [] = Unit {0}
AllSized (cmd ∷ cmds) = (0 < length cmd) × (dap_request_size cmd ≡ length cmd) × AllSized cmds

abbrev pub packed : List (List ℕ) → List ℕ
packed [] = []
packed (cmd ∷ cmds) = cmd ++ packed cmds

fits :
    (cmd rest : List ℕ)
    → 0 < length cmd
    → ((length (cmd ++ rest) == 0) || (length cmd == 0) || ltb (length (cmd ++ rest)) (length cmd))
      ≡ false
fits cmd rest some_bytes = ground (arith, length-append cmd rest)

two_bytes : (n : ℕ) → ltb (suc (suc n)) 2 ≡ false
two_bytes n = ground arith

same_after :
    {A B : Type 0} (o : Option A) (f g : A → Option B)
    → ((a : A) → f a ≡ g a)
    → (elim o as (λ _. Option B) [ none ↦ none | some a ↦ f a ])
      ≡ (elim o as (λ _. Option B) [ none ↦ none | some a ↦ g a ])
same_after none f g same = refl
same_after (some a) f g same = same a

abbrev pub AllCommands : List Command → Type 0
AllCommands [] = Unit {0}
AllCommands (c ∷ cs) = IsCommand c × AllCommands cs

commands-AllSized : (cs : List Command) → AllCommands cs → AllSized (map command_bytes cs)
commands-AllSized [] all = tt
commands-AllSized (c ∷ cs) (h, all) =
    (command-filled c, command-sized c h, commands-AllSized cs all)

length-commands : (cs : List Command) → length (map command_bytes cs) ≡ length cs
length-commands [] = refl
length-commands (c ∷ cs) = ap suc (length-commands cs)

-- A response of at most 1499 bytes, with a reply behind it when it stays one.
abbrev pub joined : List ℕ → List ℕ → List ℕ
joined out reply = if leb (length out + length reply) 1499 then out ++ reply else out

put_reply-joined : (out reply : List ℕ) → put_reply reply out ≡ joined out reply
unfolding put_reply
put_reply-joined out [] =
    if_elim (λ x. out ≡ x) (leb (length out + 0) 1499) (out ++ []) out (λ _. sym (append-nil out))
      (λ _. refl)
put_reply-joined out (b ∷ reply) = ground arith

module _ (levels : Levels) (target : Target) (cpu_mhz fuel : ℕ) (ticks : ℕ → ℕ) where
  -- The commands by `process_command`, one after the other, each with the ticks of its turn.
  pub run_all : List (List ℕ) → List ℕ → Session → Option (List ℕ × Session)
  run_all [] out s = some (out, s)
  run_all (cmd ∷ cmds) out s =
      elim (execute_one levels target cpu_mhz fuel ticks (length cmds) cmd s) [
        | none ↦ none
        | some x ↦ run_all cmds (joined out x.0) x.1
      ]

  execute-packed :
      (cmds : List (List ℕ)) (out : List ℕ) (s : Session)
      → AllSized cmds
      → execute levels target cpu_mhz fuel ticks (length cmds) (packed cmds) out s
        ≡ run_all cmds out s
  unfolding execute run_all
  execute-packed [] out s sized = refl
  execute-packed (cmd ∷ cmds) out s (some_bytes, known, sized) =
      let data' : List ℕ = cmd ++ packed cmds in
      let size : dap_request_size data' ≡ length cmd =
        dap_request_size-append cmd (packed cmds)
          (λ z. absurd (omega (arith, some_bytes, known, z)))
        ∙ known in
      let rest = λ (n : ℕ) (x : List ℕ × Session).
        execute levels target cpu_mhz fuel ticks (length cmds) (drop n data') (put_reply x.0 out)
          x.1 in
      let run = λ (n : ℕ) (c : List ℕ).
        elim (execute_one levels target cpu_mhz fuel ticks (length cmds) c s)
          as (λ _. Option (List ℕ × Session)) [ none ↦ none | some x ↦ rest n x ] in
      ap
        (λ n.
          if (length data' == 0) || (n == 0) || ltb (length data') n
          then some (out, s)
          else run n (take n data'))
        size
      ∙ ap (λ b. if b then some (out, s) else run (length cmd) (take (length cmd) data'))
          (fits cmd (packed cmds) some_bytes)
      ∙ ap (run (length cmd)) (take-length cmd (packed cmds))
      ∙ same_after (execute_one levels target cpu_mhz fuel ticks (length cmds) cmd s)
          (rest (length cmd)) (λ x. run_all cmds (joined out x.0) x.1)
          (λ x.
            ap
              (λ t.
                execute levels target cpu_mhz fuel ticks (length cmds) t (put_reply x.0 out) x.1)
              (drop-length cmd (packed cmds))
            ∙ execute-packed cmds (put_reply x.0 out) x.1 sized
            ∙ ap (λ o. run_all cmds o x.1) (put_reply-joined out x.0))

  -- A batch of commands of CMSIS-DAP, behind 0x7F and their number, with no match-value read among
  -- their requests, executes exactly these commands, one after the other, by process_command with
  -- room for 256 bytes, and sends the client 0x7F, their number, and the replies one behind the other,
  -- without those that would make the response longer than 1499 bytes; it ends within the fuel
  -- exactly when all of them do.
  pub el_process_execute_commands-packed :
      (cs : List Command) (l : Link)
      → AllCommands cs
      → el_process_execute_commands levels target cpu_mhz fuel ticks
          (0x7F ∷ length cs ∷ packed (map command_bytes cs))
          l
        ≡ send_all client l (run_all (map command_bytes cs) (0x7F ∷ length cs ∷ []) l.session)
  unfolding el_process_execute_commands
  el_process_execute_commands-packed cs l all =
      let cmds : List (List ℕ) = map command_bytes cs in
      let header : List ℕ = 0x7F ∷ length cs ∷ [] in
      let run = λ (n : ℕ).
        send_all client l
          (execute levels target cpu_mhz fuel ticks n (packed cmds) header l.session) in
      ap (λ b. if b then some l else run (length cs)) (two_bytes (length (packed cmds)))
      ∙ ap run (sym (length-commands cs))
      ∙ ap (send_all client l) (execute-packed cmds header l.session (commands-AllSized cs all))

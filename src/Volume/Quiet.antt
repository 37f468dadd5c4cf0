-- ===== src/Volume/Quiet.antt =====
-- When a scan does something, and what it leaves.
use mathlib.Core.Path.{subst}
use esp32_daplink.Base.{
  ℕ, suc, ◌≡◌, refl, sym, ap, ◌∙◌, ◌⊎◌, inl, inr, ◌==◌, ◌&&◌, not, ltb, Bool, true, false,
  if◌then◌else◌, Option, some, List, sub32,
}
use esp32_daplink.Esp.{EspErr, is_ok}
use esp32_daplink.Esp.Action.{ok, Act}
use esp32_daplink.Esp.Run.{Board, Run, done, lift, timestamp, ◌>>=◌, ◌>>◌}
use esp32_daplink.Esp.Run.Inverse.{same_result, done-inv, if-inv, >>=-inv}
use esp32_daplink.Hex.{Segment}
use esp32_daplink.Port.{SwdPort}
use esp32_daplink.Volume.{Mount, usb, app, Entry, Drive, Volume}
use esp32_daplink.Volume.Scan.{
  process_root, scan_root, track, switched, switch_to_app, when_idle, scan_mounted,
  scan_and_process_once,
}

-- A write that the scans before have not seen.
abbrev pub is_new : Volume → ℕ → Bool
is_new v last_write = ltb 0 last_write && not (last_write == v.last_write_seen)

-- The globals after the last write has been looked at, at the time `now`.
abbrev pub tracked : Volume → ℕ → ℕ → Volume
tracked v last_write now =
    if is_new v last_write
    then record v { last_write_seen = last_write; write_idle_start = now }
    else v

-- A wait was started more than two seconds before `now`.
abbrev pub is_due : Volume → ℕ → Bool
is_due v now = ltb 0 v.write_idle_start && ltb 2000 (sub32 now v.write_idle_start)

-- The readings of the clock after one more, or none.
abbrev pub reads : Bool → ℕ → ℕ
reads read n = if read then suc n else n

module _ {S : Type 0} (drive : Drive S) where
  -- The scan took the drive and gave it back, or could not take it.
  abbrev pub GaveBack : S → S → Type 0
  GaveBack before after =
      ((s : S) × (after ≡ (drive.set_mount_point usb s).1))
      ⊎ ((is_ok (drive.set_mount_point app before).0 ≡ false)
          × (after ≡ (drive.set_mount_point app before).1))

module _ {S : Type 0} (port : SwdPort S) (drive : Drive S) (connect : Act S (Unit {0}))
    (sort : List Segment → List Segment) (line : List ℕ) (clock : ℕ → ℕ) (fuel rounds : ℕ) where
  scan_root-gives_back :
      (w z : Board S)
      → scan_root port drive connect sort line clock fuel rounds w ≡ some (ok tt, z)
      → (s : S) × (z.swd ≡ (drive.set_mount_point usb s).1)
  unfolding scan_root lift
  scan_root-gives_back w z e =
      let back : Run S (Unit {0}) = lift (λ s. (ok tt, (drive.set_mount_point usb s).1)) in
      let rest : Option (List Entry) → Run S (Unit {0}) =
        λ listed. process_root port drive connect sort line clock fuel rounds listed >> back in
      let (listed, v1, listing, more) =
        >>=-inv (lift (λ s. (ok (drive.list_root s), s))) rest w tt z e in
      let (u, v2, processed, last) =
        >>=-inv (process_root port drive connect sort line clock fuel rounds listed) (λ _. back) v1
          tt z more in
      (v2.swd, ap (λ (b : Board S). b.swd) (sym (same_result tt tt _ z last).1))

  track-runs :
      (v : Volume) (last_write : ℕ) (w : Board S)
      → track port drive connect sort line clock fuel rounds v last_write w
        ≡ some (
          ok (tracked v last_write (clock w.readings)),
          record w { readings = reads (is_new v last_write) w.readings },
        )
  unfolding track timestamp done ◌>>=◌
  track-runs v last_write w = by_write (is_new v last_write)
    where
      seen : Volume
      seen = record v { last_write_seen = last_write; write_idle_start = clock w.readings }

      by_write :
          (c : Bool)
          → (if c
                then (timestamp clock >>= λ now.
                    done (record v { last_write_seen = last_write; write_idle_start = now }))
                else done v)
              w
            ≡ some (ok (if c then seen else v), record w { readings = reads c w.readings })
      by_write true = refl
      by_write false = refl

  switch_to_app-gives_back :
      (v u : Volume) (w z : Board S)
      → switch_to_app port drive connect sort line clock fuel rounds v w ≡ some (ok u, z)
      → (u ≡ record v { write_idle_start = 0 }) × GaveBack drive w.swd z.swd
  unfolding switch_to_app switched lift done
  switch_to_app-gives_back v u w z e =
      let taken : EspErr × S = drive.set_mount_point app w.swd in
      let reset : Volume = record v { write_idle_start = 0 } in
      let (r, w1, took, more) =
        >>=-inv (lift (λ s. let (e, s') = drive.set_mount_point app s in (ok e, s')))
          (switched port drive connect sort line clock fuel rounds reset) w u z e in
      let (same_e, same_w) = same_result taken.0 r (record w { swd = taken.1 }) w1 took in
      elim (if-inv (is_ok r)
        (scan_root port drive connect sort line clock fuel rounds >> done reset) (done reset) w1
        (some (ok u, z)) more) [
          | inl (good, scanned) ↦
              (let (a, w2, scan, last) =
                  >>=-inv (scan_root port drive connect sort line clock fuel rounds)
                    (λ _. done reset) w1 u z scanned in
                let (same_v, same_z) = done-inv reset u w2 z last in
                let (s, back) = scan_root-gives_back w1 w2 scan in
                (sym same_v, inl (s, ap (λ (b : Board S). b.swd) (sym same_z) ∙ back)))
          | inr (bad, stayed) ↦
              (let (same_v, same_z) = done-inv reset u w1 z stayed in
                (
                  sym same_v,
                  inr (ap is_ok same_e ∙ bad, ap (λ (b : Board S). b.swd) (sym (same_w ∙ same_z))),
                ))
        ]

  -- What became of the drive once the writes were looked at: nothing, or a scan.
  abbrev pub Decided : Volume → Board S → Volume → Board S → Type 0
  Decided v w u z =
      ((is_due v (clock w.readings) ≡ false) × (u ≡ v) × (z.swd ≡ w.swd))
      ⊎ ((is_due v (clock w.readings) ≡ true)
          × (u ≡ record v { write_idle_start = 0 })
          × GaveBack drive w.swd z.swd)

  when_idle-Decided :
      (v u : Volume) (w z : Board S)
      → when_idle port drive connect sort line clock fuel rounds v w ≡ some (ok u, z)
      → Decided v w u z
  unfolding when_idle timestamp done
  when_idle-Decided v u w z e =
      let switch : Run S Volume = switch_to_app port drive connect sort line clock fuel rounds v in
      let look : ℕ → Run S Volume =
        λ now. if ltb 2000 (sub32 now v.write_idle_start) then switch else done v in
      elim (if-inv (ltb 0 v.write_idle_start) (timestamp clock >>= look) (done v) w (some (ok u, z))
        e) [
          | inl (started, k) ↦
              (let (now, w1, read, more) = >>=-inv (timestamp clock) look w u z k in
                let (same_now, same_w) =
                  same_result (clock w.readings) now (record w { readings = suc w.readings }) w1
                    read in
                elim (if-inv (ltb 2000 (sub32 now v.write_idle_start)) switch (done v) w1
                  (some (ok u, z)) more) [
                    | inl (late, switching) ↦
                        (let (same_v, back) = switch_to_app-gives_back v u w1 z switching in
                          inr (
                            ap2_and started
                                (ap (λ t. ltb 2000 (sub32 t v.write_idle_start)) same_now ∙ late),
                            same_v,
                            subst (λ (b : Board S). GaveBack drive b.swd z.swd) (sym same_w) back,
                          ))
                    | inr (early, stayed) ↦
                        (let (same_v, same_z) = done-inv v u w1 z stayed in
                          inl (
                            ap2_and started
                                (ap (λ t. ltb 2000 (sub32 t v.write_idle_start)) same_now ∙ early),
                            sym same_v,
                            ap (λ (b : Board S). b.swd) (sym (same_w ∙ same_z)),
                          ))
                  ])
          | inr (idle, stayed) ↦
              (let (same_v, same_z) = done-inv v u w z stayed in
                inl (
                  ap (λ c. c && ltb 2000 (sub32 (clock w.readings) v.write_idle_start)) idle,
                  sym same_v,
                  ap (λ (b : Board S). b.swd) (sym same_z),
                ))
        ]
    where
      ap2_and : {a b c : Bool} → a ≡ true → b ≡ c → (a && b) ≡ c
      ap2_and {a} {b} {c} p q = ap (λ x. x && b) p ∙ q

  -- The globals once the last write has been looked at, and the readings of the clock by then.
  abbrev pub seen_at : Volume → Board S → Volume
  seen_at v w = tracked v (drive.last_write_ms w.swd) (clock w.readings)

  abbrev pub looked_at : Volume → Board S → ℕ
  looked_at v w = reads (is_new v (drive.last_write_ms w.swd)) w.readings

  -- A scan of a drive that the host has and that ends without an error takes the drive only when a
  -- wait was started, by this scan for a write that the scans before have not seen or else by one of
  -- them, more than two seconds before the clock is read: then the wait is over, and the drive is
  -- given back to the host as the last thing, unless it could not be taken. In all other cases the
  -- target and the drive are left as they were, and of the globals only the last write and the start
  -- of its wait have changed, and those only when the write is new.
  pub scan_and_process_once-Scanned :
      (v u : Volume) (w z : Board S)
      → v.storage_ready ≡ true
      → drive.mount_point w.swd ≡ usb
      → scan_and_process_once port drive connect sort line clock fuel rounds v w ≡ some (ok u, z)
      → Decided (seen_at v w) (record w { readings = looked_at v w }) u z
  unfolding scan_and_process_once scan_mounted lift done
  scan_and_process_once-Scanned v u w z ready host e =
      let of_mount : Mount → Run S Volume =
        scan_mounted port drive connect sort line clock fuel rounds v in
      let look : ℕ → Run S Volume = track port drive connect sort line clock fuel rounds v in
      let idle : Volume → Run S Volume = when_idle port drive connect sort line clock fuel rounds in
      let written : Run S ℕ = lift (λ s. (ok (drive.last_write_ms s), s)) in
      let mounted : (lift (λ s. (ok (drive.mount_point s), s)) >>= of_mount) w ≡ some (ok u, z) =
        subst
          (λ c.
            (if c then (lift (λ s. (ok (drive.mount_point s), s)) >>= of_mount) else done v) w
            ≡ some (ok u, z))
          ready e in
      let (mount, w1, asked, more) =
        >>=-inv (lift (λ s. (ok (drive.mount_point s), s))) of_mount w u z mounted in
      let (same_mount, same_w) = same_result (drive.mount_point w.swd) mount w w1 asked in
      let scanning : (written >>= look >>= idle) w ≡ some (ok u, z) =
        subst (λ m. of_mount m w ≡ some (ok u, z)) (sym same_mount ∙ host)
          (subst (λ b. of_mount mount b ≡ some (ok u, z)) (sym same_w) more) in
      let (seen, w2, looked, decide) = >>=-inv (written >>= look) idle w u z scanning in
      let (last_write, w3, read, track') = >>=-inv written look w seen w2 looked in
      let (same_write, same_w3) = same_result (drive.last_write_ms w.swd) last_write w w3 read in
      let tracking : look (drive.last_write_ms w.swd) w ≡ some (ok seen, w2) =
        subst (λ t. look t w ≡ some (ok seen, w2)) (sym same_write)
          (subst (λ b. look last_write b ≡ some (ok seen, w2)) (sym same_w3) track') in
      let (is_tracked, is_read) =
        same_result (seen_at v w) seen (record w { readings = looked_at v w }) w2
          (sym (track-runs v (drive.last_write_ms w.swd) w) ∙ tracking) in
      subst (λ b. Decided (tracked v (drive.last_write_ms w.swd) (clock w.readings)) b u z)
        (sym is_read)
        (subst (λ x. Decided x w2 u z) (sym is_tracked) (when_idle-Decided seen u w2 z decide))

-- ===== src/Client/Session/Control.antt =====
-- `start` and `stop` keep the order of the events.
use arcade_launcher_stream_e.Client.Session.Logs.{IsOrdered, opened, idle-Ordered}
use arcade_launcher_stream_e.Client.Session.{
  Session, opening, start, stop_end, StartInfo, terminates, joinable, no_worker, stop_begin,
}
use arcade_launcher_stream_e.Base.{
  Bool, true, false, [], ◌==◌, if◌then◌else◌, ◌≡◌, ◌≢◌, ◌⊎◌, refl, sym, inl, inr, arith, length,
  Bool-cases, is_empty, subst,
}

-- A call of `start` ends the program, changes nothing, or begins anew.
start_cases :
    (s : Session) (info : StartInfo)
    → ((start info s).0 ≡ terminates)
      ⊎ ((start info s).1 ≡ s)
      ⊎ (((start info s).1.worker ≡ opening info)
          × ((start info s).1.events ≡ [])
          × ((start info s).1.stats ≡ []))
unfolding start
start_cases s info = elim (Bool-cases s.running) [
  | inl r ↦ inr (inl (ground arith))
  | inr r ↦ elim (Bool-cases (length info.ri_key == 16)) [
    | inr k ↦ inr (inl (ground arith))
    | inl k ↦ elim (Bool-cases (is_empty info.rtsp_session_url)) [
      | inl u ↦ inr (inl (ground arith))
      | inr u ↦ elim (Bool-cases (joinable s.worker)) [
        | inl j ↦ inl (ground arith)
        | inr j ↦ inr (inr (ground arith, ground arith, ground arith))
      ]
    ]
  ]
]

pub start-Ordered :
    (s : Session) (info : StartInfo)
    → (start info s).0 ≢ terminates
    → IsOrdered s
    → IsOrdered (start info s).1
start-Ordered s info n o = elim (start_cases s info) [
  | inl e ↦ absurd (n e)
  | inr (inl e) ↦ subst IsOrdered (sym e) o
  | inr (inr (w, e, t)) ↦ rw (w, e, t) (opened info)
]

pub stop_end-Ordered : (s : Session) → IsOrdered s → IsOrdered (stop_end s)
unfolding stop_end
stop_end-Ordered s o = idle-Ordered s.worker no_worker s.events s.stats refl refl refl o

pub stop_begin-Ordered : (s : Session) → IsOrdered s → IsOrdered (stop_begin s)
unfolding stop_begin stop_end
stop_begin-Ordered s o = from (joinable s.worker)
  where
    from :
        (b : Bool)
        → IsOrdered (
            if b
            then record s { stop_requested = true; stopping = true }
            else stop_end (record s { stop_requested = true }))
    from true = o
    from false = idle-Ordered s.worker no_worker s.events s.stats refl refl refl o

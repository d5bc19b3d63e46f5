-- ===== src/Write/Commit/Lifecycle.antt =====
-- write.rs, wal_core.rs and the start of the agent in src/main.rs together: an agent that stops at any
-- time and starts again has the buffer that it had.
use iedb.Base.{ℕ, ◌<◌, ◌≡◌, refl, sym, List, u64_max, ℤ}
use iedb.Buffer.{new_buffer}
use iedb.Wal.{WalContents}
use iedb.Wal.Serialize
use iedb.Wal.Manager.{Disk, WriteOutcome, new_manager, set_hot_config, replay}
use iedb.Wal.Manager.Order.{DiskBelow, new_manager-DiskBelow}
use iedb.Wal.Manager.Replay.{ReadsBack}
use iedb.Write.Commit.{Agent, WriteConfig, Request, flush_into_buffer, handle}
use iedb.Write.Commit.Recover.{IsAtomic, IsRecovered, flush_into_buffer-IsRecovered}
use iedb.Write.Commit.Requests.{handle-IsRecovered}

module _ (encode : WalContents → List ℕ) (decode : List ℕ → Serialize.Result WalContents)
    (crc32 : List ℕ → ℕ) where
  -- The start in `main`: a new buffer and manager, the replay, and the limit of the HotConfig.
  unfoldable pub boot : ℕ → ℕ → Disk → Agent
  boot op_limit hot d = record {
    wal = set_hot_config hot (new_manager op_limit d);
    disk = d;
    buffer = replay encode decode crc32 d new_buffer;
  }

  -- A request, the periodic flush, and a stop at any time with a new start from the disk. The
  -- sequence numbers stay below the end of the range, and a write of a file is atomic.
  pub data Step : Agent → Agent → Type 0 where
    request :
        {a : Agent} (outcome : WriteOutcome) (now : ℤ) (config : WriteConfig) (req : Request)
        → IsAtomic outcome
        → a.wal.current_seq < u64_max
        → Step a (handle encode decode crc32 outcome now config req a).0
    tick :
        {a : Agent} (outcome : WriteOutcome) (now : ℤ)
        → IsAtomic outcome
        → a.wal.current_seq < u64_max
        → Step a (flush_into_buffer encode decode crc32 outcome now a).0
    restart :
        {a : Agent} (op_limit hot : ℕ)
        → DiskBelow u64_max a.disk
        → Step a (boot op_limit hot a.disk)

  pub data Run : Agent → Agent → Type 0 where
    done : {a : Agent} → Run a a
    step : {a b c : Agent} → Step a b → Run b c → Run a c

  boot-IsRecovered :
      (op_limit hot : ℕ) (d : Disk)
      → DiskBelow u64_max d
      → IsRecovered encode decode crc32 (boot op_limit hot d)
  unfolding boot
  boot-IsRecovered op_limit hot d h = (new_manager-DiskBelow op_limit d h, refl)

  Step-IsRecovered :
      {a b : Agent}
      → ((c : WalContents) → ReadsBack encode decode crc32 c)
      → Step a b
      → IsRecovered encode decode crc32 a
      → IsRecovered encode decode crc32 b
  Step-IsRecovered codec (request outcome now config req whole fits) h =
      handle-IsRecovered encode decode crc32 outcome now config req _ codec whole fits h
  Step-IsRecovered codec (tick outcome now whole fits) h =
      flush_into_buffer-IsRecovered encode decode crc32 outcome now _ codec whole fits h
  Step-IsRecovered codec (restart op_limit hot below) h = boot-IsRecovered op_limit hot _ below

  Run-IsRecovered :
      {a b : Agent}
      → ((c : WalContents) → ReadsBack encode decode crc32 c)
      → Run a b
      → IsRecovered encode decode crc32 a
      → IsRecovered encode decode crc32 b
  Run-IsRecovered codec done h = h
  Run-IsRecovered codec (step s r) h = Run-IsRecovered codec r (Step-IsRecovered codec s h)

  -- Start an agent on a disk, and let any requests, flushes and restarts happen, failing writes
  -- among them: an agent that starts again from the disk it left has the very buffer that it had.
  -- Files read back as written, a write of a file happens as a whole or not at all, and the sequence
  -- numbers stay below the end of the range.
  pub restart_restores :
      (op_limit hot op_limit' hot' : ℕ) (d : Disk) (a : Agent)
      → ((c : WalContents) → ReadsBack encode decode crc32 c)
      → DiskBelow u64_max d
      → Run (boot op_limit hot d) a
      → (boot op_limit' hot' a.disk).buffer ≡ a.buffer
  unfolding boot
  restart_restores op_limit hot op_limit' hot' d a codec below run =
      sym (Run-IsRecovered codec run (boot-IsRecovered op_limit hot d below)).1

-- ===== src/Stats/Stream.antt =====
-- The printers of user-dev/src/lib/stats/stats.c that write to a stream: the text goes into an array
-- of the function, and I_safe_fwrite of file-util.c writes it.
use autolock.Base.{ℕ, ltb, Option, none, some, List, length}
use autolock.Arg.{Text}
use autolock.File.Ending.{Ending, Os}
use autolock.File.Calls.{safe_fwrite}
use autolock.Stats.{Exec, value, die_assert, ◌>>=◌, StatsResult}
use autolock.Stats.Floats.{Floats}
use autolock.Stats.Print.{Formats, prints_arr, prints_cmp_arr, prints_csv_arr}

-- `place` puts a text into the array, and gives its address; `stdout` is the stream for a NULL.
module _ {W : Type 0} (os : Os W) (place : Text → W → ℕ × W) (stdout : ℕ) where
  abbrev pub stream : Option ℕ → ℕ
  stream none = stdout
  stream (some fp) = fp

  -- The array has `buflen` bytes.
  abbrev pub write_text : ℕ → Option ℕ → W → Exec Text → Exec (Ending W ℕ)
  write_text buflen fp w text = text >>= λ t.
      die_assert (ltb (length t) buflen)
        (let (buf, w') = place t w in value (safe_fwrite os buf 1 (length t) (stream fp) w'))

  module _ {D : Type 0} (fl : Floats D) (fmt : Formats D) (fp : Option ℕ) (w : W) where
    unfoldable pub printf_cmp_arr : StatsResult D → StatsResult D → ℕ → List ℕ → Exec (Ending W ℕ)
    printf_cmp_arr a b to_print ps =
        write_text 2048 fp w (prints_cmp_arr fl fmt 2048 a b to_print ps)

    unfoldable pub printf_arr : StatsResult D → ℕ → List ℕ → Exec (Ending W ℕ)
    printf_arr stats to_print ps = write_text 1024 fp w (prints_arr fl fmt 1024 stats to_print ps)

    unfoldable pub printf_csv_arr : StatsResult D → ℕ → List ℕ → Exec (Ending W ℕ)
    printf_csv_arr stats to_print ps =
        write_text 1024 fp w (prints_csv_arr fmt 1024 stats to_print ps)

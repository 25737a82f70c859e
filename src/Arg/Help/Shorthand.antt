-- ===== src/Arg/Help/Shorthand.antt =====
-- What arg2str of arg.c shows of an option.
use autolock.Base.{ℕ, List, ◌++◌}
use autolock.Base.Exec.{Exec, value}
use autolock.Arg.{Text, ArgOption}
use autolock.Arg.Help.{opening}
use autolock.Arg.Help.Names.{join}
use autolock.Arg.Help.Ending.{AreTexts, ending}

module _ (d : ArgOption) (texts : AreTexts d.args_begin) where
  abbrev shows : List ℕ → Exec Text
  shows m = value ((opening d ++ m) ++ ending d)

  abbrev n : Text
  n = join b'|' d.args_begin

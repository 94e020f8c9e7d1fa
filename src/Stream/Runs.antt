-- ===== src/Stream/Runs.antt =====
-- Runs of the loops of libcocao/stream.cc.
use libcocao.Base.{◌≡◌, refl, some, [], ◌∷◌}
use libcocao.FdManager.{pos}
use libcocao.Hook.Calls.{to_int}
use libcocao.Stream.{read_fix_size}

in_two_parts : read_fix_size 10 (pos 4 ∷ pos 6 ∷ []) ≡ some (pos 10)
unfolding read_fix_size to_int
in_two_parts = refl

end_of_file : read_fix_size 10 (pos 4 ∷ pos 0 ∷ []) ≡ some (pos 0)
unfolding read_fix_size to_int
end_of_file = refl

-- ===== src/SimError.antt =====
-- src/simerror.h: what a memory access or an operation may answer.
pub data SimError : Type 0 where
  success : SimError
  illegalinst : SimError
  unsupported : SimError
  devidebyzero : SimError
  invalidaddr : SimError
  unaligned : SimError
  unaccessable : SimError
  invalidpc : SimError
  unexecutable : SimError
  miss : SimError
  processing : SimError
  busy : SimError
  coherence : SimError
  pagefault : SimError
  unconditional : SimError
  slreorder : SimError
  llreorder : SimError

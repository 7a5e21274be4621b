-- ===== src/Tests.antt =====
-- Tests at concrete inputs.
mod JsonTests
mod IpcTests
mod NetTests
mod RenderTests
mod SessionTests
mod StartTests
mod HostTests
mod ClientTests
mod HttpTests
mod MethodTests
mod BackendTests
mod AppTests
mod ClientMethodTests

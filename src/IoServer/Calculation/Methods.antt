-- ===== src/IoServer/Calculation/Methods.antt =====
-- The calculations that IO-Server/src/main.cpp registers (IO-Server/include/calculations).
use velocity_vortex.Base.{[], ◌++◌, codes}
use velocity_vortex.IoServer.Library.{Library}
use velocity_vortex.IoServer.Calculation.{Reals}
use velocity_vortex.IoServer.Calculation.Rca.{rca_compute}
use velocity_vortex.IoServer.Calculation.Mca.{mca_compute}
use velocity_vortex.IoServer.Calculation.Registry.{CalculationHandler, Registry, register_handler}

module _ {L : Library} (D : Reals L) where
  abbrev pub rca_handler : CalculationHandler L
  rca_handler = record {
    name = codes "rca";
    description =
        codes "Rate of Change Analysis: momentum indicator measuring the "
        ++ codes "percentage price change over a configurable rolling window.";
    compute = rca_compute D;
  }

  abbrev pub mca_handler : CalculationHandler L
  mca_handler = record {
    name = codes "mca";
    description =
        codes "Moving Correlation Analysis: rolling Pearson correlation "
        ++ codes "between two symbols' close prices over a configurable window.";
    compute = mca_compute D;
  }

  unfoldable pub build_registry : Registry L
  unfolding register_handler
  build_registry = register_handler mca_handler (register_handler rca_handler [])
